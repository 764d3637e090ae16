-- ===== src/PalworldSettings/Ini.antt =====
-- app/palworld_settings/ini.py: the options of the server's settings file, split and put together
-- again without touching what is not edited.
use palworld_manager.Prelude.{
  ℕ, zero, suc, ◌+◌, ◌-◌, Bool, true, false, not, ◌&&◌, ◌||◌, List, [], ◌∷◌, ◌++◌, map, Option,
  none, some, ◌==◌, leb, length, take, if◌then◌else◌,
}
use palworld_manager.Prelude.Result.{Error, Result, ok, err, ◌>>=◌, ◌>>◌, guard}
use palworld_manager.PalworldSettings.Text.{
  Text, quote, backslash, opening, closing, comma, equals, is_letter, is_word, all, drop, slice,
  same_text, lstrip, rstrip, strip, join,
}

pub record IniEntry : Type 0 where
  pub raw : Text
  pub key : Option Text
  pub value : Option Text
  pub value_start : Option ℕ
  pub value_end : Option ℕ

pub record ParsedIni : Type 0 where
  pub prefix : Text
  pub entries : List IniEntry
  pub suffix : Text

-- The regular expressions of the section, of the next section and of the option, as searches that
-- answer with the positions of the matches (`start()`, `end()`).
pub record Patterns : Type 0 where
  pub sections : Text → List (ℕ × ℕ)
  pub next_section : Text → ℕ → Option ℕ
  pub options : Text → List (ℕ × ℕ)

-- The two flags of the scanners, after one more character.
abbrev pub next_quoted : ℕ → Bool → Bool → Bool
next_quoted c true escaped = escaped || not (c == quote)
next_quoted c false escaped = c == quote

abbrev pub next_escaped : ℕ → Bool → Bool → Bool
next_escaped c true escaped = not escaped && c == backslash
next_escaped c false escaped = escaped

-- What one character does to the search for the closing parenthesis.
pub data ClosingStep : Type 0 where
  found broken : ClosingStep
  onward : ℕ → ClosingStep

abbrev pub close_one : ℕ → ClosingStep
close_one zero = ClosingStep.broken
close_one (suc zero) = ClosingStep.found
close_one (suc (suc depth)) = ClosingStep.onward (suc depth)

abbrev pub closing_step : ℕ → Bool → ℕ → ClosingStep
closing_step c quoted depth =
    if quoted
    then ClosingStep.onward depth
    else if c == opening
    then ClosingStep.onward (suc depth)
    else if c == closing
    then close_one depth
    else ClosingStep.onward depth

-- The loop of `_find_closing_parenthesis`, from `index` on.
unfoldable pub find_closing : ℕ → ℕ → Bool → Bool → Text → Option ℕ
find_closing index depth quoted escaped [] = none
find_closing index depth quoted escaped (c ∷ cs) = elim (closing_step c quoted depth) [
  | found ↦ some index
  | broken ↦ none
  | onward next ↦
      find_closing (suc index) next (next_quoted c quoted escaped) (next_escaped c quoted escaped)
        cs
]

unfoldable pub find_closing_parenthesis : Text → ℕ → Result ℕ
unfolding find_closing
find_closing_parenthesis content opening_index =
    elim (find_closing opening_index 0 false false (drop opening_index content)) [
      | none ↦ err Error.ini_parse
      | some index ↦ ok index
    ]

-- The depth after one more character; a parenthesis that nothing opened raises.
abbrev pub next_depth : ℕ → Bool → ℕ → Result ℕ
next_depth c true depth = ok depth
next_depth c false depth =
    if c == opening
    then ok (suc depth)
    else if c == closing
    then (elim depth [ zero ↦ err Error.ini_parse | suc less ↦ ok less ])
    else ok depth

abbrev pub separates : ℕ → Bool → ℕ → Bool
separates c quoted depth = not quoted && (c == comma && depth == 0)

abbrev pub prepend : ℕ → List Text → List Text
prepend c [] = (c ∷ []) ∷ []
prepend c (t ∷ ts) = (c ∷ t) ∷ ts

-- The loop of `_split_entries`: the entries of what is left, the first of which is the end of the
-- one that is being read.
unfoldable pub split_from : ℕ → Bool → Bool → Text → Result (List Text)
split_from depth quoted escaped [] = do
  guard (not (quoted || not (depth == 0))) Error.ini_parse
  ok ([] ∷ [])
split_from depth quoted escaped (c ∷ cs) = do
  next ← next_depth c quoted depth
  rest ← split_from next (next_quoted c quoted escaped) (next_escaped c quoted escaped) cs
  ok (if separates c quoted depth then [] ∷ rest else prepend c rest)

unfoldable pub split_entries : Text → Result (List Text)
unfolding split_from
split_entries [] = ok []
split_entries (c ∷ cs) = split_from 0 false false (c ∷ cs)

-- `_top_level_equal`. Its `depth` may be negative: it is `opened` less `closed`.
unfoldable pub top_level_equal : ℕ → ℕ → ℕ → Bool → Bool → Text → Option ℕ
top_level_equal index opened closed quoted escaped [] = none
top_level_equal index opened closed quoted escaped (c ∷ cs) =
    let rest =
      top_level_equal (suc index) (if not quoted && c == opening then suc opened else opened)
        (if not quoted && c == closing then suc closed else closed) (next_quoted c quoted escaped)
        (next_escaped c quoted escaped) cs in
    if not quoted && (c == equals && opened == closed) then some index else rest

-- KEY_PATTERN
abbrev pub is_key : Text → Bool
is_key [] = false
is_key (c ∷ cs) = is_letter c && all is_word cs

abbrev pub opaque_entry : Text → IniEntry
opaque_entry raw = record {
  raw = raw;
  key = none;
  value = none;
  value_start = none;
  value_end = none;
}

abbrev pub leading : Text → ℕ
leading after = length after - length (lstrip after)

abbrev pub trailing : Text → ℕ
trailing after = length after - length (rstrip after)

-- `_parse_entry` from `after_equal` on.
abbrev pub keyed_entry : Text → ℕ → Text → IniEntry
keyed_entry raw equal_index key =
    let after = drop (suc equal_index) raw in
    let value_start = suc equal_index + leading after in
    let value_end = length raw - trailing after in
    record {
      raw = raw;
      key = some key;
      value = some (if leb value_end value_start then [] else slice value_start value_end raw);
      value_start = some value_start;
      value_end = some value_end;
    }

unfoldable pub parse_entry : Text → IniEntry
unfolding top_level_equal
parse_entry raw = elim (top_level_equal 0 0 0 false false raw) [
  | none ↦ opaque_entry raw
  | some equal_index ↦
      let key = strip (take equal_index raw) in
      if is_key key then keyed_entry raw equal_index key else opaque_entry raw
]

unfoldable pub replace_value : Text → IniEntry → Result Text
replace_value serialized entry = elim entry.value_start [
  | none ↦ err Error.ini_parse
  | some first ↦ elim entry.value_end [
    | none ↦ err Error.ini_parse
    | some last ↦ ok (take first entry.raw ++ serialized ++ drop last entry.raw)
  ]
]

abbrev pub Replacements : Type 0
Replacements = List (Text × Text)

abbrev pub lookup : Text → Replacements → Option Text
lookup key [] = none
lookup key ((k, v) ∷ kvs) = let rest = lookup key kvs in if same_text key k then some v else rest

abbrev pub replacement : Replacements → IniEntry → Option Text
replacement values entry = elim entry.key [ none ↦ none | some key ↦ lookup key values ]

unfoldable pub render_entry : Replacements → IniEntry → Result Text
unfolding replace_value
render_entry values entry = elim (replacement values entry) [
  | none ↦ ok entry.raw
  | some serialized ↦ replace_value serialized entry
]

unfoldable pub render_entries : Replacements → List IniEntry → Result (List Text)
unfolding render_entry
render_entries values [] = ok []
render_entries values (entry ∷ entries) = do
  rendered ← render_entry values entry
  rest ← render_entries values entries
  ok (rendered ∷ rest)

-- `ParsedIni.render`
unfoldable pub render : Replacements → ParsedIni → Result Text
unfolding render_entries join
render values parsed = do
  rendered ← render_entries values parsed.entries
  ok (parsed.prefix ++ join rendered ++ parsed.suffix)

abbrev pub or_else : Option ℕ → ℕ → ℕ
or_else none n = n
or_else (some start) n = start

abbrev pub only_match : List (ℕ × ℕ) → Result (ℕ × ℕ)
only_match (match_ ∷ []) = ok match_
only_match _ = err Error.ini_parse

unfoldable pub parse_ini : Patterns → Text → Result ParsedIni
unfolding find_closing_parenthesis split_entries parse_entry
parse_ini patterns content = do
  section ← only_match (patterns.sections content)
  let section_end = or_else (patterns.next_section content section.1) (length content)
  option ← only_match (patterns.options (slice section.1 section_end content))
  let opening_index = section.1 + option.1 - 1
  closing_index ← find_closing_parenthesis content opening_index
  guard (not (leb section_end closing_index)) Error.ini_parse
  raws ← split_entries (slice (suc opening_index) closing_index content)
  ok (record {
    prefix = take (suc opening_index) content;
    entries = map parse_entry raws;
    suffix = drop closing_index content;
  })
