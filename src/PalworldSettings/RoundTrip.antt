-- ===== src/PalworldSettings/RoundTrip.antt =====
-- app/palworld_settings/ini.py: what is parsed and rendered again is the same text.
use mathlib.Core.List.{append_assoc}
use palworld_manager.Prelude.{
  ℕ, suc, ◌+◌, ◌-◌, ◌≤◌, ◌<◌, ◌≡◌, refl, sym, ap, ◌∙◌, Bool, false, not, ◌||◌, List, [], ◌∷◌, ◌++◌,
  map, some, arith, ◌==◌, leb, length, take, Bool-cases, Option-cases, inl, inr, ◌⊎◌,
}
use palworld_manager.Prelude.Result.{Error, ok, >>=-eq-ok, guard-eq-ok, ◌>>=◌}
use palworld_manager.PalworldSettings.Text.{Text, drop, slice, join, take-drop, drop-drop}
use palworld_manager.PalworldSettings.Ini.{
  ParsedIni, Patterns, ClosingStep, closing_step, next_quoted, next_escaped, find_closing,
  find_closing_parenthesis, next_depth, separates, prepend, split_from, split_entries, parse_entry,
  render_entry, render_entries, render, parse_ini, only_match, or_else,
}

ClosingStep-cases :
    (s : ClosingStep)
    → ((s ≡ ClosingStep.found) ⊎ (s ≡ ClosingStep.broken)) ⊎ ((n : ℕ) × (s ≡ ClosingStep.onward n))
ClosingStep-cases ClosingStep.found = inl (inl refl)
ClosingStep-cases ClosingStep.broken = inl (inr refl)
ClosingStep-cases (ClosingStep.onward n) = inr (n, refl)

-- The position that is found is not in front of the start, and at depth 0 it is not the start.
find_closing_range :
    (index depth : ℕ) (quoted escaped : Bool) (cs : Text) {k : ℕ}
    → find_closing index depth quoted escaped cs ≡ some k
    → (index ≤ k) × (depth ≡ 0 → index < k)
unfolding find_closing
find_closing_range index depth quoted escaped [] h = cc
find_closing_range index depth quoted escaped (c ∷ cs) {k} h =
    elim (ClosingStep-cases (closing_step c quoted depth)) [
      | inl (inl e) ↦ ground arith
      | inl (inr e) ↦ let impossible : ⊥ = ground arith in absurd impossible
      | inr (next, e) ↦ ground (
        arith,
        find_closing_range (suc index) next (next_quoted c quoted escaped)
            (next_escaped c quoted escaped) cs {k = k},
      )
    ]

join-prepend : (c : ℕ) (ts : List Text) → join (prepend c ts) ≡ c ∷ join ts
unfolding join
join-prepend c [] = refl
join-prepend c (t ∷ []) = refl
join-prepend c (t ∷ u ∷ ts) = refl

split_from-join :
    (depth : ℕ) (quoted escaped : Bool) (cs : Text) {ts : List Text}
    → split_from depth quoted escaped cs ≡ ok ts
    → (join ts ≡ cs) × ((t : Text) × (rest : List Text) × (ts ≡ t ∷ rest))
unfolding split_from join
split_from-join depth quoted escaped [] {ts} h =
    let (fine, h1) = guard-eq-ok (not (quoted || not (depth == 0))) Error.ini_parse _ h in
    (ground arith, ([], [], ground arith))
split_from-join depth quoted escaped (c ∷ cs) {ts} h =
    let (next, opened, h1) = >>=-eq-ok (next_depth c quoted depth) _ h in
    let (rest, split, h2) =
      >>=-eq-ok (split_from next (next_quoted c quoted escaped) (next_escaped c quoted escaped) cs)
        _ h1 in
    let (joined, (t, us, shape)) =
      split_from-join next (next_quoted c quoted escaped) (next_escaped c quoted escaped) cs
        split in
    elim (Bool-cases (separates c quoted depth)) [
      | inl cut ↦ (ground arith, ([], rest, ground arith))
      | inr kept ↦ (ground (arith, join-prepend c rest), (c ∷ t, us, ground arith))
    ]

split_entries-join : (cs : Text) {ts : List Text} → split_entries cs ≡ ok ts → join ts ≡ cs
unfolding split_entries join
split_entries-join [] h = ground arith
split_entries-join (c ∷ cs) h = (split_from-join 0 false false (c ∷ cs) h).0

parse_entry-raw : (raw : Text) → (parse_entry raw).raw ≡ raw
unfolding parse_entry
parse_entry-raw raw = ground arith

-- Without replacements each entry is its own text.
render_entries-raw : (raws : List Text) → render_entries [] (map parse_entry raws) ≡ ok raws
unfolding render_entries render_entry
render_entries-raw [] = refl
render_entries-raw (raw ∷ raws) =
    ground (arith, parse_entry-raw raw, render_entries-raw raws, Option-cases (parse_entry raw).key)

-- A text is what stands in front of a slice, the slice and what follows it.
slice_parts :
    (first last : ℕ) (content : Text)
    → first ≤ last
    → take first content ++ slice first last content ++ drop last content ≡ content
slice_parts first last content h =
    let same : first + (last - first) ≡ last = omega arith in
    let tail : drop last content ≡ drop (last - first) (drop first content) =
      ap (λ n. drop n content) (sym same) ∙ sym (drop-drop first (last - first) content) in
    append_assoc (take first content) (slice first last content) (drop last content)
    ∙ ap (λ t. take first content ++ (slice first last content ++ t)) tail
    ∙ ap (λ t. take first content ++ t) (take-drop (last - first) (drop first content))
    ∙ take-drop first content

rebuilt :
    (at index : ℕ) (content : Text) (raws : List Text)
    → suc at ≤ index
    → join raws ≡ slice (suc at) index content
    → render [] (record {
      prefix = take (suc at) content;
      entries = map parse_entry raws;
      suffix = drop index content;
    })
      ≡ ok content
unfolding render
rebuilt at index content raws h joined =
    ground (arith, render_entries-raw raws, joined, slice_parts (suc at) index content h)

from_parts :
    (at index : ℕ) (content : Text) (raws : List Text)
    → find_closing_parenthesis content at ≡ ok index
    → split_entries (slice (suc at) index content) ≡ ok raws
    → render [] (record {
      prefix = take (suc at) content;
      entries = map parse_entry raws;
      suffix = drop index content;
    })
      ≡ ok content
unfolding find_closing_parenthesis
from_parts at index content raws found split =
    elim (Option-cases (find_closing at 0 false false (drop at content))) [
      | inl e ↦ let impossible : ⊥ = ground arith in absurd impossible
      | inr (k, e) ↦
          let fits : suc at ≤ index =
            ground (arith, find_closing_range at 0 false false (drop at content) e) in
          rebuilt at index content raws fits
            (split_entries-join (slice (suc at) index content) split)
    ]

-- A settings file that `parse_ini` takes is rendered, without replacements, to the same text,
-- whatever the patterns found.
pub render-parse_ini :
    (patterns : Patterns) (content : Text) (parsed : ParsedIni)
    → parse_ini patterns content ≡ ok parsed
    → render [] parsed ≡ ok content
unfolding parse_ini render find_closing_parenthesis
render-parse_ini patterns content parsed h =
    let (section, one, h1) = >>=-eq-ok (only_match (patterns.sections content)) _ h in
    let section_end = or_else (patterns.next_section content section.1) (length content) in
    let (option, only, h2) =
      >>=-eq-ok (only_match (patterns.options (slice section.1 section_end content))) _ h1 in
    let at = section.1 + option.1 - 1 in
    let (index, found, h3) = >>=-eq-ok (find_closing_parenthesis content at) _ h2 in
    let (inside, h4) = guard-eq-ok (not (leb section_end index)) Error.ini_parse _ h3 in
    let (raws, split, h5) = >>=-eq-ok (split_entries (slice (suc at) index content)) _ h4 in
    sym (ap (λ r. r >>= render []) h5) ∙ from_parts at index content raws found split
