-- ===== src/Release/Member/Tests.antt =====
-- Runs of `member_name`.
use aura_server.Base.{◌≡◌, refl, ok, err, invalid_release}
use aura_server.Base.{split, join}
use aura_server.Release.Member.{
  member_name, is_unsafe_name, pure_posix_path, path_str, proper_parts,
}

nested : member_name "bin/aura-server" ≡ ok "bin/aura-server"
unfolding member_name is_unsafe_name pure_posix_path path_str proper_parts split join
nested = refl

parent : member_name "bin/../x" ≡ err (invalid_release "Unsafe archive member")
unfolding member_name is_unsafe_name pure_posix_path path_str proper_parts split join
parent = refl

absolute : member_name "/bin" ≡ err (invalid_release "Unsafe archive member")
unfolding member_name is_unsafe_name pure_posix_path path_str proper_parts split join
absolute = refl

doubled : member_name "a//b" ≡ err (invalid_release "Unsafe archive member")
unfolding member_name is_unsafe_name pure_posix_path path_str proper_parts split join
doubled = refl

-- The one name that stands for the directory itself passes.
dot_passes : member_name "." ≡ ok "."
unfolding member_name is_unsafe_name pure_posix_path path_str proper_parts split join
dot_passes = refl
