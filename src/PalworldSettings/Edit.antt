-- ===== src/PalworldSettings/Edit.antt =====
-- app/palworld_settings/ini.py: an edited entry has its old key and the new value.
use palworld_manager.Prelude.{
  ℕ, suc, ◌+◌, ◌-◌, ◌<◌, ◌≡◌, refl, sym, ap, ◌∙◌, Bool, true, false, not, ◌&&◌, [], ◌∷◌, ◌++◌, none,
  some, arith, ◌==◌, leb, length, length-append, take, if◌then◌else◌, Bool-cases, Option-cases, inl,
  inr,
}
use mathlib.Core.List.{append_assoc}
use palworld_manager.Prelude.Result.{ok}
use palworld_manager.PalworldSettings.Text.{
  Text, equals, opening, closing, is_space, all, drop, slice, lstrip, rstrip, strip,
}
use palworld_manager.PalworldSettings.Ini.{
  next_quoted, next_escaped, top_level_equal, is_key, keyed_entry, leading, trailing, parse_entry,
  replace_value,
}
use palworld_manager.PalworldSettings.Strip.{
  take-append, drop-append, is_empty-length, IsTrimmed, length-rstrip, leading-all, trailing-all,
  lstrip-spaces, lstrip-append, rstrip-spaces, rstrip-append,
}

-- Where the sign is found, only what stands in front of it was read.
record FindsEqual (index opened closed : ℕ) (quoted escaped : Bool) (raw : Text) (k : ℕ)
    : Type 0 where
  front : Text
  back : Text
  parts : raw ≡ front ++ equals ∷ back
  place : k ≡ index + length front
  again :
      (other : Text)
      → top_level_equal index opened closed quoted escaped (front ++ equals ∷ other) ≡ some k

top_level_equal-FindsEqual :
    (index opened closed : ℕ) (quoted escaped : Bool) (raw : Text) {k : ℕ}
    → top_level_equal index opened closed quoted escaped raw ≡ some k
    → FindsEqual index opened closed quoted escaped raw k
unfolding top_level_equal
top_level_equal-FindsEqual index opened closed quoted escaped [] h = absurd (impossible h)
  where
    impossible : {k : ℕ} → none ≡ some k → ⊥
    impossible e = ground arith
top_level_equal-FindsEqual index opened closed quoted escaped (c ∷ cs) {k} h =
    let opened' = if not quoted && c == opening then suc opened else opened in
    let closed' = if not quoted && c == closing then suc closed else closed in
    elim (Bool-cases (not quoted && (c == equals && opened == closed))) [
      | inl here ↦
          let sign : c ≡ equals = ground arith in
          record {
            front = [];
            back = cs;
            parts = ap (λ x. x ∷ cs) sign;
            place = ground arith;
            again = λ other. ground arith;
          }
      | inr later ↦
          let r =
            top_level_equal-FindsEqual (suc index) opened' closed' (next_quoted c quoted escaped)
              (next_escaped c quoted escaped) cs {k = k} (ground arith) in
          record {
            front = c ∷ r.front;
            back = r.back;
            parts = ap (λ t. c ∷ t) r.parts;
            place = ground (arith, r.place);
            again = λ other. ground (arith, r.again other);
          }
    ]

take_past :
    (a t : Text) (k n : ℕ)
    → k ≡ suc (length a + n)
    → take k (a ++ equals ∷ t) ≡ a ++ equals ∷ take n t
take_past [] t k n h = let e : k ≡ suc n = omega (arith, h) in ap (λ i. take i (equals ∷ t)) e
take_past (x ∷ a) t k n h =
    let e : k ≡ suc (suc (length a + n)) = omega (arith, h) in
    ap (λ i. take i (x ∷ (a ++ equals ∷ t))) e
    ∙ ap (λ r. x ∷ r) (take_past a t (suc (length a + n)) n refl)

drop_past : (a t : Text) (k n : ℕ) → k ≡ suc (length a + n) → drop k (a ++ equals ∷ t) ≡ drop n t
drop_past [] t k n h = let e : k ≡ suc n = omega (arith, h) in ap (λ i. drop i (equals ∷ t)) e
drop_past (x ∷ a) t k n h =
    let e : k ≡ suc (suc (length a + n)) = omega (arith, h) in
    ap (λ i. drop i (x ∷ (a ++ equals ∷ t))) e ∙ drop_past a t (suc (length a + n)) n refl

length_past : (a t : Text) → length (a ++ equals ∷ t) ≡ suc (length a + length t)
length_past a t = ground (arith, length-append a (equals ∷ t))

module _ (s v rest : Text) (before : all is_space s ≡ true) (after : all is_space rest ≡ true)
    (t : IsTrimmed v) where
  lstrip-padded : lstrip (s ++ v ++ rest) ≡ v ++ rest
  lstrip-padded =
      ap lstrip (append_assoc s v rest)
      ∙ lstrip-spaces s (v ++ rest) before
      ∙ lstrip-append v rest t.some_text t.no_space_before

  rstrip-padded : rstrip (s ++ v ++ rest) ≡ s ++ v
  rstrip-padded = rstrip-spaces (s ++ v) rest after ∙ rstrip-append s v t.some_text t.no_space_after

  leading-padded : leading (s ++ v ++ rest) ≡ length s
  leading-padded = ground (
    arith,
    ap length lstrip-padded,
    length-append v rest,
    length-append (s ++ v) rest,
    length-append s v,
  )

  trailing-padded : trailing (s ++ v ++ rest) ≡ length rest
  trailing-padded = ground (arith, ap length rstrip-padded, length-append (s ++ v) rest)

  length-padded : length (s ++ v ++ rest) ≡ length s + length v + length rest
  length-padded = omega (arith, length-append (s ++ v) rest, length-append s v)

  some_text-length : 0 < length v
  some_text-length = is_empty-length v t.some_text

  -- The value of an entry whose text after the sign is a trimmed value between spaces.
  keyed_entry-value :
      (a key : Text) → (keyed_entry (a ++ equals ∷ (s ++ v ++ rest)) (length a) key).value ≡ some v
  keyed_entry-value a key =
      let whole = s ++ v ++ rest in
      let raw = a ++ equals ∷ whole in
      let after_is : drop (suc (length a)) raw ≡ whole =
        drop_past a whole (suc (length a)) 0 (omega arith) in
      let first = suc (length a) + leading (drop (suc (length a)) raw) in
      let last = length raw - trailing (drop (suc (length a)) raw) in
      let first_is : first ≡ suc (length a + length s) =
        omega (arith, ap leading after_is, leading-padded) in
      let last_is : last ≡ suc (length a + (length s + length v)) =
        omega (arith, ap trailing after_is, trailing-padded, length_past a whole, length-padded) in
      let in_order : leb last first ≡ false = ground (arith, some_text-length, first_is, last_is) in
      let tail : drop first raw ≡ v ++ rest =
        drop_past a whole first (length s) first_is
        ∙ ap (drop (length s)) (append_assoc s v rest)
        ∙ drop-append s (v ++ rest) in
      let size : last - first ≡ length v = omega (arith, first_is, last_is) in
      let found : slice first last raw ≡ v =
        ap (λ n. take n (drop first raw)) size ∙ ap (take (length v)) tail ∙ take-append v rest in
      ground (arith, in_order, found)

-- What `parse_entry` does where the sign is known.
parse_entry-keyed :
    (raw : Text) (k : ℕ)
    → top_level_equal 0 0 0 false false raw ≡ some k
    → is_key (strip (take k raw)) ≡ true
    → parse_entry raw ≡ keyed_entry raw k (strip (take k raw))
unfolding parse_entry
parse_entry-keyed raw k found good = ground arith

parse_entry-key :
    (raw key : Text)
    → (parse_entry raw).key ≡ some key
    → (k : ℕ) × (top_level_equal 0 0 0 false false raw ≡ some k)
      × (is_key (strip (take k raw)) ≡ true)
      × (key ≡ strip (take k raw))
unfolding parse_entry
parse_entry-key raw key h = elim (Option-cases (top_level_equal 0 0 0 false false raw)) [
  | inl e ↦ let impossible : ⊥ = ground arith in absurd impossible
  | inr (k, e) ↦ elim (Bool-cases (is_key (strip (take k raw)))) [
    | inr f ↦ let impossible : ⊥ = ground arith in absurd impossible
    | inl f ↦ (k, e, f, ground arith)
  ]
]

-- The text of an edited entry: the old one with the value between the old spaces.
replaced :
    (a t key v : Text)
    → let s = take (leading t) t in
      let rest = drop (length (rstrip t)) t in
      replace_value v (keyed_entry (a ++ equals ∷ t) (length a) key)
      ≡ ok (a ++ equals ∷ (s ++ v ++ rest))
unfolding replace_value
replaced a t key v =
    let raw = a ++ equals ∷ t in
    let after_is : drop (suc (length a)) raw ≡ t = drop_past a t (suc (length a)) 0 (omega arith) in
    let first = suc (length a) + leading (drop (suc (length a)) raw) in
    let last = length raw - trailing (drop (suc (length a)) raw) in
    let first_is : first ≡ suc (length a + leading t) = omega (arith, ap leading after_is) in
    let last_is : last ≡ suc (length a + length (rstrip t)) =
      omega (arith, ap trailing after_is, length_past a t, length-rstrip t) in
    ap (λ x. ok (x ++ v ++ drop last raw)) (take_past a t first (leading t) first_is)
    ∙ ap (λ y. ok ((a ++ equals ∷ take (leading t) t) ++ v ++ y))
        (drop_past a t last (length (rstrip t)) last_is)
    ∙ ap ok (regroup (take (leading t) t) (drop (length (rstrip t)) t))
  where
    regroup : (s rest : Text) → (a ++ equals ∷ s) ++ v ++ rest ≡ a ++ equals ∷ (s ++ v ++ rest)
    regroup s rest =
        ap (λ x. x ++ rest) (append_assoc a (equals ∷ s) v)
        ∙ append_assoc a (equals ∷ (s ++ v)) rest

-- Editing an entry that has a key, with a value that `strip` leaves alone, succeeds, and the edited
-- text is parsed as an entry with the same key and exactly the new value.
pub parse_entry-replace_value :
    (raw key v : Text)
    → (parse_entry raw).key ≡ some key
    → IsTrimmed v
    → (edited : Text) × (replace_value v (parse_entry raw) ≡ ok edited)
      × ((parse_entry edited).key ≡ some key)
      × ((parse_entry edited).value ≡ some v)
parse_entry-replace_value raw key v keyed trimmed =
    let (k, sign, good, key_is) = parse_entry-key raw key keyed in
    let f = top_level_equal-FindsEqual 0 0 0 false false raw sign in
    let place : k ≡ length f.front = omega (arith, f.place) in
    let s = take (leading f.back) f.back in
    let rest = drop (length (rstrip f.back)) f.back in
    let edited = f.front ++ equals ∷ (s ++ v ++ rest) in
    let front_is : take k raw ≡ f.front =
      ap (take k) f.parts
      ∙ ap (λ i. take i (f.front ++ equals ∷ f.back)) place
      ∙ take-append f.front (equals ∷ f.back) in
    let front_was : take k edited ≡ f.front =
      ap (λ i. take i edited) place ∙ take-append f.front (equals ∷ (s ++ v ++ rest)) in
    let parsed : parse_entry edited ≡ keyed_entry edited k (strip (take k edited)) =
      parse_entry-keyed edited k (f.again (s ++ v ++ rest))
        (ap (λ t. is_key (strip t)) (front_was ∙ sym front_is) ∙ good) in
    (
      edited,
      ap (replace_value v) (parse_entry-keyed raw k sign good)
          ∙ ap (λ r. replace_value v (keyed_entry r k (strip (take k raw)))) f.parts
          ∙ ap
              (λ i.
                replace_value v (keyed_entry (f.front ++ equals ∷ f.back) i (strip (take k raw))))
              place
          ∙ replaced f.front f.back (strip (take k raw)) v,
      ap (λ x. x.key) parsed
          ∙ ap (λ t. some (strip t)) (front_was ∙ sym front_is)
          ∙ ap some (sym key_is),
      ap (λ x. x.value) parsed
          ∙ ap (λ i. (keyed_entry edited i (strip (take k edited))).value) place
          ∙ keyed_entry-value s v rest (leading-all f.back) (trailing-all f.back) trimmed f.front
              (strip (take k edited)),
    )
