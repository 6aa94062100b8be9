-- ===== src/Cli/Shows.antt =====
-- sdk/cli.py and api/routers/query.py: `stats` reads the samples that `get_metrics` prints.
use log_foundry.Prelude.{ℕ, ◌≡◌, String, Bool, true, [], ◌∷◌}
use Prim.Native.Char.{Char, code}

-- Every character passes a test.
abbrev pub AllChars : (ℕ → Bool) → String → Type 0
AllChars p String.[] = Unit
AllChars p (String.◌∷◌ c t) = (p (code c) ≡ true) × AllChars p t
