-- ===== src/Consumers/Sample.antt =====
-- A concrete broker and database for the tests of the consumers.
use log_foundry.Prelude.{
  ℕ, ◌≡◌, refl, inl, Bool, true, false, none, some, List, [], ◌∷◌, ◌++◌, if◌then◌else◌, ◌==◌,
  str_eq, decimal, Outcome, ret_inj, ret-ne-raise, ret, raise, other, Exc, All, arith, ap, sym,
}
use package.text.Mathlib.TextEquality.{eq_iff}
use log_foundry.Consumers.Kafka.{Bytes, Message, Batches, Kafka, Quiet, messages_of}
use log_foundry.Consumers.Payload.{Reader, text, object, field, end}
use log_foundry.Consumers.LogWriter.Row.{Row, Stamp, instant, raw}
use log_foundry.Consumers.Base.{Codec, Settings}
use log_foundry.Consumers.LogWriter.Sorted.{All-map}
use log_foundry.Consumers.LogWriter.Insert.{Database}

pub record World : Type 0 where
  pub polls : List Batches
  pub delivered : List Message
  pub committed : List Message
  pub table : List Row
  pub sent : List Bytes

abbrev pub poll : List Batches → World → Outcome Batches × World
poll [] w = (raise other, w)
poll (b ∷ bs) w = (ret b, record w { polls = bs; delivered = w.delivered ++ messages_of b })

pub poll-delivered :
    (bs : List Batches) (w : World) (b : Batches)
    → (poll bs w).0 ≡ ret b
    → (poll bs w).1.delivered ≡ w.delivered ++ messages_of b
poll-delivered [] w b h = absurd (ret-ne-raise (sym h))
poll-delivered (c ∷ bs) w b h = ap (λ x. w.delivered ++ messages_of x) (ret_inj h)

pub poll-raise :
    (bs : List Batches) (w : World) (e : Exc)
    → (poll bs w).0 ≡ raise e
    → (poll bs w).1.delivered ≡ w.delivered
poll-raise [] w e h = refl
poll-raise (c ∷ bs) w e h = absurd (ret-ne-raise h)

pub poll-committed : (bs : List Batches) (w : World) → (poll bs w).1.committed ≡ w.committed
poll-committed [] w = refl
poll-committed (b ∷ bs) w = refl

abbrev pub broker : Kafka World
broker = record {
  getmany = λ w. poll w.polls w;
  commit = λ w. (ret tt, record w { committed = w.delivered });
  send = λ t k v w. (ret tt, record w { sent = v ∷ w.sent });
  delivered = World.delivered;
  committed = World.committed;
  getmany-delivered = λ w. poll-delivered w.polls w;
  getmany-raise = λ w. poll-raise w.polls w;
  getmany-committed = λ w. poll-committed w.polls w;
  commit-delivered = λ w. refl;
  commit-committed = λ w h. refl;
  commit-raise = λ w e h. inl refl;
  send-delivered = λ t k v w. refl;
  send-committed = λ t k v w. refl;
}

abbrev same_stamp : Stamp → Stamp → Bool
same_stamp (instant i) (instant j) = i == j
same_stamp (raw _) (raw _) = true
same_stamp _ _ = false

-- The test server takes rows to be equal by their identifiers and instants.
abbrev same : Row → Row → Bool
same q r = if str_eq q.id r.id then same_stamp q.timestamp r.timestamp else false

same_stamp_refl : (t : Stamp) → same_stamp t t ≡ true
same_stamp_refl (instant i) = ground arith
same_stamp_refl (raw j) = refl

same_refl : (r : Row) → same r r ≡ true
same_refl r = ground (arith, eq_iff r.id r.id, same_stamp_refl r.timestamp)

abbrev pub holds : List Row → Row → Bool
holds [] q = false
holds (r ∷ rows) q = if same q r then true else holds rows q

holds-cons : (r q : Row) (rows : List Row) → holds rows q ≡ true → holds (r ∷ rows) q ≡ true
holds-cons r q rows h = ground arith

holds-append : (rows table : List Row) → All (λ q. holds (rows ++ table) q ≡ true) rows
holds-append [] table = tt
holds-append (r ∷ rows) table = (
  rw (same_refl r),
  All-map rows (λ q h. holds-cons r q (rows ++ table) h) (holds-append rows table),
)

holds-keeps :
    (rows table : List Row) (q : Row) → holds table q ≡ true → holds (rows ++ table) q ≡ true
holds-keeps [] table q h = h
holds-keeps (r ∷ rows) table q h = holds-cons r q (rows ++ table) (holds-keeps rows table q h)

abbrev store : List Row → Bool → World → Outcome (Unit {0}) × World
store rows true w = (ret tt, record w { table = rows ++ w.table })
store rows false w = (raise other, w)

pub store-stored :
    (up : Bool) (rows : List Row) (w : World)
    → (store rows up w).0 ≡ ret tt
    → All (λ q. holds (store rows up w).1.table q ≡ true) rows
store-stored true rows w h = holds-append rows w.table
store-stored false rows w h = absurd (ret-ne-raise (sym h))

pub store-raise :
    (up : Bool) (rows : List Row) (w : World) (q : Row) (e : Exc)
    → (store rows up w).0 ≡ raise e
    → holds (store rows up w).1.table q ≡ holds w.table q
store-raise true rows w q e h = absurd (ret-ne-raise h)
store-raise false rows w q e h = refl

pub store-keeps :
    (up : Bool) (rows : List Row) (w : World) (q : Row)
    → holds w.table q ≡ true
    → holds (store rows up w).1.table q ≡ true
store-keeps true rows w q h = holds-keeps rows w.table q h
store-keeps false rows w q h = h

pub store-Quiet : (up : Bool) (rows : List Row) → Quiet broker (store rows up)
store-Quiet true rows = record { delivered = λ w. refl; committed = λ w. refl }
store-Quiet false rows = record { delivered = λ w. refl; committed = λ w. refl }

pub poll-table : (bs : List Batches) (w : World) → (poll bs w).1.table ≡ w.table
poll-table [] w = refl
poll-table (b ∷ bs) w = refl

-- A database whose pool hands out connections only if it is up.
abbrev pub server : Bool → Database World broker
server up = record {
  acquire = λ w. (if up then ret tt else raise other, w);
  executemany = λ rows w. store rows up w;
  execute = λ row w. store (row ∷ []) up w;
  incr = λ key w. (raise other, w);
  stored = λ w q. holds w.table q;
  execute-stored = λ w row h. (store-stored up (row ∷ []) w h).0;
  executemany-stored = λ w rows h. store-stored up rows w h;
  execute-raise = λ w row q e h. store-raise up (row ∷ []) w q e h;
  executemany-raise = λ w rows q e h. store-raise up rows w q e h;
  execute-keeps = λ w row q h. store-keeps up (row ∷ []) w q h;
  executemany-keeps = λ w rows q h. store-keeps up rows w q h;
  acquire-table = λ w q. refl;
  incr-table = λ key w q. refl;
  getmany-table = λ w q. ap (λ t. holds t q) (poll-table w.polls w);
  commit-table = λ w q. refl;
  send-table = λ t key v w q. refl;
  acquire-Quiet = record { delivered = λ w. refl; committed = λ w. refl };
  executemany-Quiet = λ rows. store-Quiet up rows;
  execute-Quiet = λ row. store-Quiet up (row ∷ []);
  incr-Quiet = λ key. record { delivered = λ w. refl; committed = λ w. refl };
}

-- Every message but a 0 decodes, to an event whose identifier is its first byte.
abbrev pub reader : Reader
reader = record {
  decode =
      λ bytes. elim bytes [ [] ↦ some "" | b ∷ bs ↦ if b == 0 then none else some (decimal b) ];
  loads = λ t. some (
      object (
        field "id" (text t) (
          field "timestamp" (text "now") (
            field "service" (text "pay")
              (field "level" (text "INFO") (field "message" (text "hi") end))))));
  dumps = λ j. "{}";
  show = λ j. "";
  nonzero = λ t. true;
  uuid = λ j. elim j [ text t ↦ some t | _ ↦ none ];
  fromisoformat = λ t. some 7;
}

abbrev pub codec : Codec
codec = record { decode = reader.decode; dump_letter = λ letter. 1 ∷ [] }

abbrev pub settings : Settings
settings = record {
  dead_letter_topic = "logs.dead-letter";
  consumer_class = "LogWriterConsumer";
  group_id = "logfoundry-writer";
}

abbrev pub line : ℕ → Message
line n = record {
  topic = "logs.ingest";
  partition = 0;
  offset = n;
  key = none;
  value = some (n ∷ []);
}

abbrev pub fresh : List Batches → World
fresh polls = record { polls = polls; delivered = []; committed = []; table = []; sent = [] }
