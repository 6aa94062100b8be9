-- ===== src/Cli/Stats.antt =====
-- sdk/cli.py: `stats`.
use log_foundry.Prelude.{
  ℕ, String, ◌^^◌, Bool, true, false, ◌&&◌, ◌||◌, ◌==◌, str_eq, if◌then◌else◌, Option, none, some,
  List, [], ◌∷◌, ◌++◌, Outcome, ret, raise, value_error, other,
}
use Prim.Native.Char.{Char, code}
use log_foundry.Cli.Tail.{Fetched, body, http_error, url_error}

-- What is printed: the text of a comment; a metric, its labels and its value; a metric and its value.
pub data Shown : Type 0 where
  help : String → Shown
  labelled : String → String → String → Shown
  simple : String → String → Shown

-- The rest of a text after a given beginning.
unfoldable pub strip_prefix : String → String → Option String
strip_prefix String.[] t = some t
strip_prefix (String.◌∷◌ c p) String.[] = none
strip_prefix (String.◌∷◌ c p) (String.◌∷◌ d t) =
    let rest = strip_prefix p t in if code c == code d then rest else none

abbrev pub in_front : Char → Option (String × String) → Option (String × String)
in_front c none = none
in_front c (some (before, after)) = some (String.◌∷◌ c before, after)

-- What stands before and after the first `sep`, as in `split(sep, 1)`.
unfoldable pub break_at : String → String → Option (String × String)
unfolding strip_prefix
break_at sep String.[] = elim (strip_prefix sep "") [ none ↦ none | some rest ↦ some ("", rest) ]
break_at sep (String.◌∷◌ c t) =
    let later = in_front c (break_at sep t) in
    elim (strip_prefix sep (String.◌∷◌ c t)) [ none ↦ later | some rest ↦ some ("", rest) ]

-- `sep in t`
abbrev pub contains : String → String → Bool
contains sep t = elim (break_at sep t) [ none ↦ false | some parts ↦ true ]

-- What stands before and after the last character of a kind, as in `rsplit(c, 1)`.
unfoldable pub break_last : Char → String → Option (String × String)
break_last c String.[] = none
break_last c (String.◌∷◌ d t) = elim (break_last c t) [
  | none ↦ if code d == code c then some ("", t) else none
  | some parts ↦ some (String.◌∷◌ d parts.0, parts.1)
]

abbrev pub starts_with : String → String → Bool
starts_with p t = elim (strip_prefix p t) [ none ↦ false | some rest ↦ true ]

-- `not service or f'service="{service}"' in line or "total" in line`
abbrev pub is_kept : Option String → String → Bool
is_kept none line = true
is_kept (some service) line =
    str_eq service "" || (contains ("service=\"" ^^ service ^^ "\"") line || contains "total" line)

-- `t.split("\n")`
abbrev pub to_first_line : Char → List String → List String
to_first_line c [] = []
to_first_line c (line ∷ lines) = String.◌∷◌ c line ∷ lines

unfoldable pub split_lines : String → List String
split_lines String.[] = "" ∷ []
split_lines (String.◌∷◌ c t) =
    let lines = split_lines t in if code c == 10 then "" ∷ lines else to_first_line c lines

-- Whether a character is white space, for `strip_text`.
module _ (is_space : ℕ → Bool) where
  unfoldable pub strip_left : String → String
  strip_left String.[] = ""
  strip_left (String.◌∷◌ c t) =
      let rest = strip_left t in if is_space (code c) then rest else String.◌∷◌ c t

  unfoldable pub strip_right : String → String
  strip_right String.[] = ""
  strip_right (String.◌∷◌ c t) =
      let rest = strip_right t in
      if is_space (code c) && str_eq rest "" then "" else String.◌∷◌ c rest

  unfoldable pub strip_text : String → String
  unfolding strip_left strip_right
  strip_text t = strip_right (strip_left t)

  -- A metric, which is a ValueError if a brace opens and none closes.
  unfoldable pub show_metric : String → Outcome (List Shown)
  unfolding break_at break_last strip_text
  show_metric line = elim (break_at "{" line) [
    | some parts ↦ elim (break_last "}" parts.1) [
      | some ends ↦ ret (labelled parts.0 ends.0 (strip_text ends.1) ∷ [])
      | none ↦ raise value_error
    ]
    | none ↦ elim (break_last " " line) [
      | none ↦ ret []
      | some parts ↦ ret (simple parts.0 parts.1 ∷ [])
    ]
  ]

  -- `line.split('# HELP ')[1]`
  unfoldable pub show_help : String → Outcome (List Shown)
  unfolding break_at
  show_help line = elim (break_at "# HELP " line) [
    | none ↦ raise other
    | some parts ↦ elim (break_at "# HELP " parts.1) [
      | none ↦ ret (help parts.1 ∷ [])
      | some more ↦ ret (help more.0 ∷ [])
    ]
  ]

  unfoldable pub show_line : Option String → String → Outcome (List Shown)
  unfolding show_metric show_help
  show_line service line =
      if starts_with "#" line
      then (if starts_with "# HELP" line then show_help line else ret [])
      else if is_kept service line
      then show_metric line
      else ret []

  -- The loop over the lines, and the error that ends it.
  abbrev pub after_line :
      Outcome (List Shown) → List Shown × Outcome (Unit {0}) → List Shown × Outcome (Unit {0})
  after_line (raise e) rest = ([], raise e)
  after_line (ret shown) (more, o) = (shown ++ more, o)

  unfoldable pub show_lines : Option String → List String → List Shown × Outcome (Unit {0})
  unfolding show_line
  show_lines service [] = ([], ret tt)
  show_lines service (line ∷ lines) = after_line (show_line service line) (show_lines service lines)

  -- `stats`, by what `urlopen` of `/metrics` came to: an HTTPError is a URLError.
  unfoldable pub stats : Option String → Outcome Fetched → List Shown × Outcome (Unit {0})
  unfolding show_lines split_lines strip_text
  stats service (raise e) = ([], raise e)
  stats service (ret http_error) = ([], ret tt)
  stats service (ret url_error) = ([], ret tt)
  stats service (ret (body t)) = show_lines service (split_lines (strip_text t))
