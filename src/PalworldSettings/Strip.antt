-- ===== src/PalworldSettings/Strip.antt =====
-- app/palworld_settings/ini.py: what `strip` does to a text between spaces.
use palworld_manager.Prelude.{
  suc, ◌≤◌, ◌<◌, ◌≡◌, refl, sym, ap, ◌∙◌, true, false, ◌&&◌, [], ◌∷◌, ◌++◌, arith, length, take,
  Bool-cases, inl, inr,
}
use palworld_manager.PalworldSettings.Text.{Text, is_space, all, drop, is_empty, lstrip, rstrip}
use palworld_manager.PalworldSettings.Ini.{leading}

pub take-append : (a b : Text) → take (length a) (a ++ b) ≡ a
take-append [] b = refl
take-append (x ∷ a) b = ap (λ t. x ∷ t) (take-append a b)

pub drop-append : (a b : Text) → drop (length a) (a ++ b) ≡ b
drop-append [] b = refl
drop-append (x ∷ a) b = drop-append a b

pub is_empty-true : (t : Text) → is_empty t ≡ true → t ≡ []
is_empty-true [] h = refl
is_empty-true (_ ∷ _) h = cc

pub is_empty-append : (s v : Text) → is_empty v ≡ false → is_empty (s ++ v) ≡ false
is_empty-append [] v h = h
is_empty-append (c ∷ s) v h = refl

pub is_empty-length : (t : Text) → is_empty t ≡ false → 0 < length t
is_empty-length [] h = cc
is_empty-length (_ ∷ t) h = omega arith

-- What `strip` does to a text between spaces.
pub record IsTrimmed (v : Text) : Type 0 where
  pub some_text : is_empty v ≡ false
  pub no_space_before : lstrip v ≡ v
  pub no_space_after : rstrip v ≡ v

pub length-lstrip : (t : Text) → length (lstrip t) ≤ length t
unfolding lstrip
length-lstrip [] = ground arith
length-lstrip (c ∷ cs) = ground (arith, length-lstrip cs)

pub length-rstrip : (t : Text) → length (rstrip t) ≤ length t
unfolding rstrip
length-rstrip [] = ground arith
length-rstrip (c ∷ cs) = ground (arith, length-rstrip cs)

pub leading-all : (t : Text) → all is_space (take (leading t) t) ≡ true
unfolding lstrip
leading-all [] = ground arith
leading-all (c ∷ cs) = elim (Bool-cases (is_space c)) [
  | inl space ↦
      let one_more : leading (c ∷ cs) ≡ suc (leading cs) = ground (arith, length-lstrip cs) in
      ap (λ n. all is_space (take n (c ∷ cs))) one_more ∙ ground (arith, leading-all cs)
  | inr letter ↦
      let at_once : leading (c ∷ cs) ≡ 0 = ground arith in
      ap (λ n. all is_space (take n (c ∷ cs))) at_once
]

pub trailing-all : (t : Text) → all is_space (drop (length (rstrip t)) t) ≡ true
unfolding rstrip
trailing-all [] = refl
trailing-all (c ∷ cs) = elim (Bool-cases (is_space c && is_empty (rstrip cs))) [
  | inl ends ↦
      let blank : rstrip cs ≡ [] = is_empty-true (rstrip cs) (ground arith) in
      let none_left : rstrip (c ∷ cs) ≡ [] = ground arith in
      let rest : all is_space cs ≡ true =
        sym (ap (λ t. all is_space (drop (length t) cs)) blank) ∙ trailing-all cs in
      ap (λ t. all is_space (drop (length t) (c ∷ cs))) none_left ∙ ground arith
  | inr goes_on ↦
      let kept : rstrip (c ∷ cs) ≡ c ∷ rstrip cs = ground arith in
      ap (λ t. all is_space (drop (length t) (c ∷ cs))) kept ∙ trailing-all cs
]

pub lstrip-spaces : (s v : Text) → all is_space s ≡ true → lstrip (s ++ v) ≡ lstrip v
unfolding lstrip
lstrip-spaces [] v h = refl
lstrip-spaces (c ∷ s) v h = ground (arith, lstrip-spaces s v)

pub lstrip-append : (v s : Text) → is_empty v ≡ false → lstrip v ≡ v → lstrip (v ++ s) ≡ v ++ s
unfolding lstrip
lstrip-append [] s h p = cc
lstrip-append (c ∷ v) s h p = ground (arith, length-lstrip v)

pub rstrip-all : (s : Text) → all is_space s ≡ true → rstrip s ≡ []
unfolding rstrip
rstrip-all [] h = refl
rstrip-all (c ∷ s) h = ground (arith, rstrip-all s)

pub rstrip-spaces : (v s : Text) → all is_space s ≡ true → rstrip (v ++ s) ≡ rstrip v
unfolding rstrip
rstrip-spaces [] s h = rstrip-all s h
rstrip-spaces (c ∷ v) s h = ground (arith, rstrip-spaces v s h)

pub rstrip-append : (s v : Text) → is_empty v ≡ false → rstrip v ≡ v → rstrip (s ++ v) ≡ s ++ v
unfolding rstrip
rstrip-append [] v h p = p
rstrip-append (c ∷ s) v h p = ground (arith, rstrip-append s v h p, is_empty-append s v h)
