-- ===== src/Release/Member/Accepted.antt =====
-- The names that `member_name` accepts.
use aura_server.Base.{
  ℕ, String, ◌≤◌, ◌≡◌, refl, ◌↔◌, inl, inr, false, not, ◌||◌, List, [], ◌∷◌, ◌++◌, length, All,
  All-map, any_iff, ◌==◌, nat_eq, list_eq, list_equals_iff, codes, split, join, arith, ok,
}
use aura_server.Base.Text.Split.{NoSep, split-join, join-All}
use aura_server.Release.Member.{
  slash, dot, dot_dot, root_of, proper_parts, pure_posix_path, path_str, is_member_char,
  is_unsafe_name, member_name,
}
use aura_server.Release.Member.Parts.{
  IsSegment, IsAccepted, IsProper, proper_parts-eq_self, Passes, safe_of_Passes, join-ne-nil,
  path_str_cases, IsAccepted-of_safe,
}

root_of_plain : (c : ℕ) (s : List ℕ) → (c == slash) ≡ false → root_of (c ∷ s) ≡ []
root_of_plain c [] h = rw h
root_of_plain c (d ∷ []) h = rw h
root_of_plain c (d ∷ e ∷ s) h = rw h

IsSegment-NoSep : (s : List ℕ) → IsSegment s → NoSep slash s
IsSegment-NoSep s h = All-map _ (λ c. (c == slash) ≡ false) (λ c e. ground arith) s h.plain

IsProper-of : (s : List ℕ) → IsSegment s → IsProper s
IsProper-of s h = (h.ne_nil, h.ne_dot)

member_chars : (s : List ℕ) → IsSegment s → All (λ c. not (is_member_char c) ≡ false) s
member_chars s h = All-map _ (λ c. not (is_member_char c) ≡ false) (λ c e. ground arith) s h.plain

step_of_IsSegment : (p : List ℕ) → IsSegment p → (p == [] || p == dot || p == dot_dot) ≡ false
step_of_IsSegment p h = ground (
  arith,
  h.ne_nil,
  h.ne_dot,
  h.ne_dot_dot,
  list_equals_iff p [],
  list_equals_iff p dot,
  list_equals_iff p dot_dot,
)

root_of-join : (p : List ℕ) (ps : List (List ℕ)) → IsSegment p → root_of (join slash (p ∷ ps)) ≡ []
unfolding join
root_of-join [] ps h = absurd (h.ne_nil refl)
root_of-join (c ∷ s) [] h = root_of_plain c s (IsSegment-NoSep _ h).0
root_of-join (c ∷ s) (q ∷ ps) h =
    root_of_plain c (s ++ (slash ∷ join slash (q ∷ ps))) (IsSegment-NoSep _ h).0

module _ (p : List ℕ) (ps : List (List ℕ)) (h : All IsSegment (p ∷ ps)) where
  parts-join : proper_parts (split slash (join slash (p ∷ ps))) ≡ p ∷ ps
  parts-join =
      rw (split-join slash p ps (All-map IsSegment (NoSep slash) IsSegment-NoSep (p ∷ ps) h))
        (proper_parts-eq_self (p ∷ ps) h)

  path_str-join : path_str (record { root = []; parts = p ∷ ps }) ≡ join slash (p ∷ ps)
  path_str-join =
      elim (path_str_cases (p ∷ ps) (All-map IsSegment IsProper IsProper-of (p ∷ ps) h)) [
        | inl (e, _) ↦ cc
        | inr (_, e) ↦ e
      ]

  Passes-join : length (join slash (p ∷ ps)) ≤ 240 → Passes (join slash (p ∷ ps))
  unfolding pure_posix_path
  Passes-join short = record {
    ne_nil = ground (arith, list_equals_iff (join slash (p ∷ ps)) [], join-ne-nil p ps h.0.ne_nil);
    short = ground arith;
    relative = rw (root_of-join p ps h.0);
    canonical = rw (root_of-join p ps h.0, parts-join) ((list_equals_iff _ _).1 path_str-join);
    steps =
        rw parts-join ((any_iff _ (p ∷ ps)).1 (All-map IsSegment _ step_of_IsSegment (p ∷ ps) h));
    chars = (any_iff _ (join slash (p ∷ ps))).1 (
        join-All slash (λ c. not (is_member_char c) ≡ false) (p ∷ ps) refl
          (All-map IsSegment _ member_chars (p ∷ ps) h));
  }

safe_of_IsAccepted : (name : List ℕ) → IsAccepted name → is_unsafe_name name ≡ false
safe_of_IsAccepted name (short, inl d) =
    rw (← d.joined) (safe_of_Passes _ (Passes-join d.first d.more d.segments (rw d.joined short)))
safe_of_IsAccepted name (short, inr e) =
    rw e (unfold is_unsafe_name pure_posix_path path_str proper_parts split join in refl)

-- `member_name` returns exactly the text that it was given, and does so exactly if that text has at
-- most 240 characters and is a downward path of plain segments, or is the one dot.
pub member_name-eq-ok :
    (name r : String) → (member_name name ≡ ok r) ↔ ((name ≡ r) × IsAccepted (codes name))
unfolding member_name
member_name-eq-ok name r = (
  λ h. (ground arith, IsAccepted-of_safe (codes name) (ground arith)),
  λ h. rw (safe_of_IsAccepted (codes name) h.1, h.0),
)
