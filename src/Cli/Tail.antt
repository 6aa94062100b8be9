-- ===== src/Cli/Tail.antt =====
-- sdk/cli.py: `_api_request` and `tail`.
use log_foundry.Prelude.{
  ℕ, zero, suc, ◌-◌, String, ◌^^◌, decimal, Bool, false, not, ◌&&◌, ◌==◌, Option, none, some, List,
  [], ◌∷◌, ◌++◌, length, str_eq, member, ltb, if◌then◌else◌, Outcome, ret, raise,
}
use Prim.Native.Char.{code}

-- An entry of the answer, the values of its fields being texts; `none` where a field is missing, and
-- for a `trace_id` that is null.
pub record LogEntry : Type 0 where
  pub id : Option String
  pub level : Option String
  pub timestamp : Option String
  pub service : Option String
  pub message : Option String
  pub trace_id : Option String

-- The options of the command.
pub record Options : Type 0 where
  pub endpoint : String
  pub service : Option String
  pub level : Option String
  pub search : Option String
  pub limit : ℕ
  pub follow : Bool

-- What `urlopen` comes to, an HTTPError and a URLError told apart from every other exception.
pub data Fetched : Type 0 where
  body : String → Fetched
  http_error : Fetched
  url_error : Fetched

-- The web, Python's codecs, and `time.sleep`, which is in the world.
pub record Services (S : Type 0) : Type 0 where
  pub urlopen : String → S → Outcome Fetched × S
  -- `urllib.request.quote`
  pub quote : String → String
  pub isoformat : ℕ → String
  pub fromisoformat : String → Outcome ℕ
  -- `json.loads(t).get("results", [])`
  pub results_of : String → Outcome (List LogEntry)

-- The variables of `tail`, with what came in and what was printed, in order.
pub record Run (S : Type 0) : Type 0 where
  pub world : S
  pub since_dt : Option ℕ
  pub seen_ids : List String
  pub received : List LogEntry
  pub printed : List LogEntry

-- `f"{k}={quote(v)}"`, unless the value is None, and the joining by "&".
abbrev pub query_part : {A : Type 0} → String → Option A → (A → String) → List String → List String
query_part name none show rest = rest
query_part name (some v) show rest = (name ^^ "=" ^^ show v) ∷ rest

unfoldable pub join_amp : List String → String
join_amp [] = ""
join_amp (part ∷ []) = part
join_amp (part ∷ parts) = part ^^ "&" ^^ join_amp parts

-- `entry_ts.replace("Z", "+00:00")`
unfoldable pub replace_z : String → String
replace_z String.[] = ""
replace_z (String.◌∷◌ c t) =
    let rest = replace_z t in if code c == 90 then "+00:00" ^^ rest else String.◌∷◌ c rest

-- `if entry_id and entry_id not in seen_ids`
abbrev pub is_new : List String → Option String → Bool
is_new seen none = false
is_new seen (some id) = not (str_eq id "") && not (member id seen)

abbrev pub id_or_empty : Option String → String
id_or_empty none = ""
id_or_empty (some id) = id

-- The loop over the results: the identifiers that are seen then, and the new entries.
unfoldable pub filter_new : List String → List LogEntry → List String × List LogEntry
filter_new seen [] = (seen, [])
filter_new seen (entry ∷ entries) =
    let kept = filter_new (seen ++ id_or_empty entry.id ∷ []) entries in
    let passed = filter_new seen entries in
    if is_new seen entry.id then (kept.0, entry ∷ kept.1) else passed

abbrev pub reversed : {A : Type 0} → List A → List A
reversed [] = []
reversed (x ∷ xs) = reversed xs ++ x ∷ []

-- `list(…)[-n:]` of a list that is longer.
abbrev pub drop : {A : Type 0} → ℕ → List A → List A
drop zero xs = xs
drop (suc n) [] = []
drop (suc n) (x ∷ xs) = drop n xs

-- `if len(seen_ids) > 10000`
unfoldable pub trim : List String → List String
trim seen = if ltb 10000 (length seen) then drop (length seen - 5000) seen else seen

module _ {S : Type 0} (v : Services S) (o : Options) where
  -- The address of `/query` with its parameters; the limit is always one.
  unfoldable pub url : Option ℕ → String
  unfolding join_amp
  url since_dt =
      o.endpoint
      ^^ "/query"
      ^^ "?"
      ^^ join_amp (
          query_part "service" o.service v.quote (
            query_part "level" o.level v.quote (
              query_part "search" o.search v.quote (
                query_part "since" since_dt (λ t. v.quote (v.isoformat t))
                  (query_part "limit" (some (decimal o.limit)) v.quote [])))))

  -- What `_api_request` returns for `/query`, its results taken out: none after an API error or a
  -- connection error, which are printed.
  abbrev pub after_urlopen : Outcome Fetched → Outcome (List LogEntry)
  after_urlopen (raise e) = raise e
  after_urlopen (ret (body t)) = v.results_of t
  after_urlopen (ret http_error) = ret []
  after_urlopen (ret url_error) = ret []

  unfoldable pub api_request : Option ℕ → S → Outcome (List LogEntry) × S
  unfolding url
  api_request since_dt s =
      let (fetched, s') = v.urlopen (url since_dt) s in (after_urlopen fetched, s')

  -- `if entry_ts`
  abbrev pub next_since : Option ℕ → Option String → Outcome (Option ℕ)
  next_since since_dt none = ret since_dt
  next_since since_dt (some t) =
      if str_eq t "" then ret since_dt else elim (v.fromisoformat (replace_z t)) [
        | raise e ↦ raise e
        | ret instant ↦ ret (some instant)
      ]

  -- The loop that prints: an entry is printed, then its time is read.
  unfoldable pub print_entries : List LogEntry → Run S → Outcome (Unit {0}) × Run S
  print_entries [] r = (ret tt, r)
  print_entries (entry ∷ entries) r =
      let shown = record r { printed = r.printed ++ entry ∷ [] } in
      let next = next_since r.since_dt entry.timestamp in
      elim next [
        | raise e ↦ (raise e, shown)
        | ret since_dt ↦ print_entries entries (record shown { since_dt = since_dt })
      ]

  -- What follows an answer, up to the test of `follow`.
  unfoldable pub show_results : List LogEntry → Run S → Outcome (Unit {0}) × Run S
  unfolding filter_new print_entries
  show_results results r =
      let (seen, new_entries) = filter_new r.seen_ids results in
      print_entries (reversed new_entries)
        (record r { seen_ids = seen; received = r.received ++ results })

  abbrev pub after_request : Outcome (List LogEntry) → Run S → Outcome (Unit {0}) × Run S
  after_request (raise e) r = (raise e, r)
  after_request (ret results) r = show_results results r

  unfoldable pub poll_once : Run S → Outcome (Unit {0}) × Run S
  unfolding api_request
  poll_once r =
      let (results, s) = api_request r.since_dt r.world in
      after_request results (record r { world = s })

  -- `while True`, through the polls that begin before the user stops it.
  unfoldable pub tail_loop : ℕ → Run S → Outcome (Unit {0}) × Run S
  unfolding poll_once trim
  tail_loop zero r = (ret tt, r)
  tail_loop (suc polls) r =
      let (done, r') = poll_once r in
      let rest = tail_loop polls (record r' { seen_ids = trim r'.seen_ids }) in
      elim done [ raise e ↦ (raise e, r') | ret ok ↦ if o.follow then rest else (ret tt, r') ]
