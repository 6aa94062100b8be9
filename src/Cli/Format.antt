-- ===== src/Cli/Format.antt =====
-- sdk/cli.py: `_format_log_entry`.
use log_foundry.Prelude.{
  ℕ, zero, suc, ◌-◌, String, ◌^^◌, Option, none, some, Dict, lookup, [], ◌∷◌, str_eq, if◌then◌else◌,
}
use Prim.Native.String
use log_foundry.Cli.Stats.{break_at}
use log_foundry.Cli.Tail.{LogEntry}

-- `LEVEL_ICONS`
abbrev icons : Dict String
icons =
    ("DEBUG", "🔍")
    ∷ ("INFO", "✅")
    ∷ ("WARNING", "⚠\u{fe0f} ")
    ∷ ("ERROR", "❌")
    ∷ ("CRITICAL", "🔥")
    ∷ []

-- `LEVEL_COLORS`
abbrev colors : Dict String
colors =
    ("DEBUG", "white")
    ∷ ("INFO", "green")
    ∷ ("WARNING", "yellow")
    ∷ ("ERROR", "red")
    ∷ ("CRITICAL", "bright_red")
    ∷ []

-- `d.get(k, default)`
abbrev pub or_default : {A : Type 0} → Option A → A → A
or_default none d = d
or_default (some a) d = a

unfoldable pub first_chars : ℕ → String → String
first_chars zero t = ""
first_chars (suc n) String.[] = ""
first_chars (suc n) (String.◌∷◌ c t) = String.◌∷◌ c (first_chars n t)

unfoldable pub spaces : ℕ → String
spaces zero = ""
spaces (suc n) = " " ^^ spaces n

-- `f"{t:8s}"`
unfoldable pub pad : String → String
unfolding spaces
pad t = t ^^ spaces (8 - String.count t)

-- `if "T" in timestamp: timestamp = timestamp.split("T")[1][:12]`
unfoldable pub time_of : String → String
unfolding break_at first_chars
time_of t = elim (break_at "T" t) [
  | none ↦ t
  | some parts ↦ elim (break_at "T" parts.1) [
    | none ↦ first_chars 12 parts.1
    | some more ↦ first_chars 12 more.0
  ]
]

abbrev pub trace_of : String → String
trace_of t = if str_eq t "" then "" else " (trace: " ^^ t ^^ ")"

unfoldable pub format_log_entry : LogEntry → String
unfolding time_of pad lookup
format_log_entry entry =
    let level = or_default entry.level "UNKNOWN" in
    or_default (lookup level icons) "📋"
    ^^ " ["
    ^^ time_of (or_default entry.timestamp "")
    ^^ "] "
    ^^ or_default entry.service "unknown"
    ^^ " | "
    ^^ pad level
    ^^ " | "
    ^^ or_default entry.message ""
    ^^ trace_of (or_default entry.trace_id "")

-- The colour of the line.
unfoldable pub color_of : LogEntry → String
unfolding lookup
color_of entry = or_default (lookup (or_default entry.level "") colors) "white"
