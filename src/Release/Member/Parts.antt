-- ===== src/Release/Member/Parts.antt =====
-- The parts of a name that `member_name` accepts.
use aura_server.Base.{
  ℕ, ◌≤◌, ◌≡◌, refl, ap, sym, ◌∙◌, ◌≢◌, ◌⊎◌, inl, inr, Bool, true, false, not, ◌||◌, List, [], ◌∷◌,
  length, any, All, All-map, All-zip, any_iff, ltb, ◌==◌, nat_eq, list_eq, list_equals_iff,
  Bool-cases, split, join, is_alnum, arith,
}
use aura_server.Base.Text.Split.{NoSep, NoSep-split, All-join}
use aura_server.Release.Member.{
  slash, dot, dot_dot, root_of, proper_parts, pure_posix_path, path_str, is_member_char,
  is_unsafe_name,
}

-- `[a-zA-Z0-9._-]`
abbrev pub is_segment_char : ℕ → Bool
is_segment_char c = is_alnum c || c == b'.' || c == b'_' || c == b'-'

-- One step down a directory tree: neither empty, nor the directory itself, nor its parent.
pub record IsSegment (s : List ℕ) : Type 0 where
  pub ne_nil : s ≢ []
  pub ne_dot : s ≢ dot
  pub ne_dot_dot : s ≢ dot_dot
  pub plain : All (λ c. is_segment_char c ≡ true) s

-- A relative path that goes down only, written in its one canonical way.
pub record IsDownward (name : List ℕ) : Type 0 where
  pub first : List ℕ
  pub more : List (List ℕ)
  pub segments : All IsSegment (first ∷ more)
  pub joined : join slash (first ∷ more) ≡ name

abbrev pub IsAccepted : List ℕ → Type 0
IsAccepted name = (length name ≤ 240) × (IsDownward name ⊎ (name ≡ dot))

abbrev pub IsProper : List ℕ → Type 0
IsProper p = (p ≢ []) × (p ≢ dot)

proper_parts-IsProper : (ps : List (List ℕ)) → All IsProper (proper_parts ps)
unfolding proper_parts
proper_parts-IsProper [] = tt
proper_parts-IsProper (p ∷ ps) = elim (Bool-cases (p == [] || p == dot)) [
  | inl e ↦ rw e (proper_parts-IsProper ps)
  | inr e ↦
      rw e (ground (arith, list_equals_iff p [], list_equals_iff p dot), proper_parts-IsProper ps)
]

proper_parts-All : (P : List ℕ → Type 0) (ps : List (List ℕ)) → All P ps → All P (proper_parts ps)
unfolding proper_parts
proper_parts-All P [] h = tt
proper_parts-All P (p ∷ ps) (h, hs) = elim (Bool-cases (p == [] || p == dot)) [
  | inl e ↦ rw e (proper_parts-All P ps hs)
  | inr e ↦ rw e (h, proper_parts-All P ps hs)
]

pub proper_parts-eq_self : (ps : List (List ℕ)) → All IsSegment ps → proper_parts ps ≡ ps
unfolding proper_parts
proper_parts-eq_self [] h = refl
proper_parts-eq_self (p ∷ ps) (h, hs) =
    let e : (p == [] || p == dot) ≡ false =
      ground (arith, h.ne_nil, h.ne_dot, list_equals_iff p [], list_equals_iff p dot) in
    rw e (ap (λ r. p ∷ r) (proper_parts-eq_self ps hs))

-- What the six tests say of a name that passes them.
pub record Passes (name : List ℕ) : Type 0 where
  pub ne_nil : (name == []) ≡ false
  pub short : ltb 240 (length name) ≡ false
  pub relative : ((pure_posix_path name).root == []) ≡ true
  pub canonical : (path_str (pure_posix_path name) == name) ≡ true
  pub steps : any (λ p. p == [] || p == dot || p == dot_dot) (pure_posix_path name).parts ≡ false
  pub chars : any (λ c. not (is_member_char c)) name ≡ false

Passes-of_safe : (name : List ℕ) → is_unsafe_name name ≡ false → Passes name
unfolding is_unsafe_name
Passes-of_safe name h = record {
  ne_nil = ground arith;
  short = ground arith;
  relative = ground arith;
  canonical = ground arith;
  steps = ground arith;
  chars = ground arith;
}

pub safe_of_Passes : (name : List ℕ) → Passes name → is_unsafe_name name ≡ false
unfolding is_unsafe_name
safe_of_Passes name p = rw (p.ne_nil, p.short, p.relative, p.canonical, p.steps, p.chars)

segment_char : (c : ℕ) → (c == slash) ≡ false → is_member_char c ≡ true → is_segment_char c ≡ true
segment_char c h k = ground arith

member_char : (c : ℕ) → is_segment_char c ≡ true → is_member_char c ≡ true
member_char c k = ground arith

pub join-ne-nil : (p : List ℕ) (ps : List (List ℕ)) → p ≢ [] → join slash (p ∷ ps) ≢ []
unfolding join
join-ne-nil [] ps h e = h refl
join-ne-nil (x ∷ p) [] h e = cc
join-ne-nil (x ∷ p) (t ∷ ps) h e = cc

-- A path with no root, as text: `.` if nothing is left of it.
pub path_str_cases :
    (ps : List (List ℕ))
    → All IsProper ps
    → let whole = path_str (record { root = []; parts = ps }) in
      ((ps ≡ []) × (whole ≡ dot)) ⊎ ((ps ≢ []) × (whole ≡ join slash ps))
unfolding path_str
path_str_cases [] h = inl (refl, unfold join in refl)
path_str_cases (p ∷ ps) (h, hs) =
    inr (λ e. cc, ground (arith, list_equals_iff (join slash (p ∷ ps)) [], join-ne-nil p ps h.0))

IsSegment-of :
    (p : List ℕ)
    → IsProper p
    → NoSep slash p
    → (p == [] || p == dot || p == dot_dot) ≡ false
    → All (λ c. is_member_char c ≡ true) p
    → IsSegment p
IsSegment-of p (ne_nil, ne_dot) sep step chars = record {
  ne_nil = ne_nil;
  ne_dot = ne_dot;
  ne_dot_dot = ground (arith, list_equals_iff p dot_dot);
  plain =
      All-map _ (λ c. is_segment_char c ≡ true) (λ c h. segment_char c h.0 h.1) p
        (All-zip (λ c. (c == slash) ≡ false) (λ c. is_member_char c ≡ true) p sep chars);
}

IsSegments-of :
    (ps : List (List ℕ))
    → All IsProper ps
    → All (NoSep slash) ps
    → any (λ p. p == [] || p == dot || p == dot_dot) ps ≡ false
    → All (All (λ c. is_member_char c ≡ true)) ps
    → All IsSegment ps
IsSegments-of [] proper sep steps chars = tt
IsSegments-of (p ∷ ps) (i, is) (s, ss) steps (c, cs) =
    (IsSegment-of p i s (ground arith) c, IsSegments-of ps is ss (ground arith) cs)

joined_of :
    {name : List ℕ} (ps : List (List ℕ))
    → ps ≢ []
    → path_str (record { root = []; parts = ps }) ≡ name
    → All IsProper ps
    → join slash ps ≡ name
joined_of ps h e proper = elim (path_str_cases ps proper) [
  | inl (q, _) ↦ absurd (h q)
  | inr (_, q) ↦ sym q ∙ e
]

accepted_of_parts :
    (name : List ℕ) (ps : List (List ℕ))
    → path_str (record { root = []; parts = ps }) ≡ name
    → All IsProper ps
    → All (NoSep slash) ps
    → any (λ p. p == [] || p == dot || p == dot_dot) ps ≡ false
    → All (λ c. is_member_char c ≡ true) name
    → IsDownward name ⊎ (name ≡ dot)
accepted_of_parts name [] e proper sep steps chars = inr (sym e ∙ unfold path_str join in refl)
accepted_of_parts name (p ∷ ps) e proper sep steps chars =
    let joined : join slash (p ∷ ps) ≡ name = joined_of (p ∷ ps) (λ q. cc) e proper in
    inl (record {
      first = p;
      more = ps;
      segments =
          IsSegments-of (p ∷ ps) proper sep steps
            (All-join slash (λ c. is_member_char c ≡ true) (p ∷ ps) (rw joined chars));
      joined = joined;
    })

pub IsAccepted-of_safe : (name : List ℕ) → is_unsafe_name name ≡ false → IsAccepted name
unfolding pure_posix_path
IsAccepted-of_safe name h =
    let passes = Passes-of_safe name h in
    let ps = proper_parts (split slash name) in
    let rootless : root_of name ≡ [] = (list_equals_iff (root_of name) []).0 passes.relative in
    let canonical : path_str (record { root = []; parts = ps }) ≡ name =
      rw (← rootless) ((list_equals_iff _ name).0 passes.canonical) in
    (
      ground (arith, passes.short),
      accepted_of_parts name ps canonical (proper_parts-IsProper _)
          (proper_parts-All (NoSep slash) _ (NoSep-split slash name)) passes.steps
          (All-map _ _ (λ c e. ground (arith)) name ((any_iff _ name).0 passes.chars)),
    )
