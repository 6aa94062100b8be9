-- ===== src/Replay/Letters.antt =====
-- consumers/base_consumer.py and scripts/replay_dlq.py: what becomes of a message that a consumer put
-- on the dead-letter topic when the script takes it from there.
use log_foundry.Prelude.{
  String, ◌≡◌, refl, sym, true-ne-false, ap, ◌∙◌, ◌⊎◌, inl, inr, Option, none, some, [], ◌∷◌, ret,
  Bool-cases, true, false, lt→ltb, ◌<◌, ℕ, Outcome, raise, json_error, ◌++◌, if◌then◌else◌, suc,
  arith, append_assoc, str_eq,
}
use log_foundry.Prelude.{eq_iff}
use log_foundry.Consumers.Kafka.{Bytes, Message}
use log_foundry.Consumers.Payload.{null, text, Reader, truthy}
use log_foundry.Consumers.Base.{succeeded, Codec, Settings, DeadLetter, letter_of}
use log_foundry.Gateway.Models.{text_or_null}
use log_foundry.Replay.Limits.{run_of}
use log_foundry.Replay.{
  publish, commit, Services, Run, replay_round, replay_value, publish_value, replay_message,
  after_getone, after_message, skip_garbage, after_send, commit_one, payload_of,
}
use log_foundry.Replay.Envelope.{envelope, get-envelope, HasText, letter_of-HasText}

module _ {S : Type 0} (v : Services S) (cd : Codec) where
  -- What is relied on of UTF-8 and pydantic: the bytes of a text are read back, and no log event is an
  -- empty text; and of aiokafka: its errors are not those of json.
  pub record Laws : Type 0 where
    pub encode-decode :
        (content : Bytes) (t : String) → cd.decode content ≡ some t → v.encode t ≡ ret content
    pub validate-empty : v.validate (text "") ≡ false
    pub send-raise : (content : Bytes) (s : S) → ¬ ((v.send content s).0 ≡ raise json_error)
    pub commit-raise : (s : S) → ¬ ((v.commit_offsets s).0 ≡ raise json_error)

  -- The end of a round that sends the text.
  abbrev pub after_sending : String → Outcome (Unit {0}) × S → Run S → Run S
  after_sending original (o, s) r =
      let (c, s') = v.commit_offsets s in
      record {
        world = if succeeded o then s' else s;
        replayed = if succeeded o then suc r.replayed else r.replayed;
        journal =
            r.journal
            ++ publish (text original) (succeeded o)
              ∷ (if succeeded o then commit (succeeded c) ∷ [] else []);
      }

  -- The bytes of the message were handed to `send`, and the offset is committed if that succeeds.
  pub record Republished (m : Message) (s : S) (r r' : Run S) : Type 0 where
    pub content : Bytes
    pub value : m.value ≡ some content
    pub original : String
    pub decoded : cd.decode content ≡ some original
    pub valid : v.validate (text original) ≡ true
    pub end : r' ≡ after_sending original (v.send content s) r

  -- Nothing was sent, and the offset is committed.
  pub record Skipped (m : Message) (s : S) (r r' : Run S) : Type 0 where
    pub reason :
        (m.value ≡ none)
        ⊎ (m.value ≡ some [])
        ⊎ ((content : Bytes) × (original : String) × (m.value ≡ some content)
            × (cd.decode content ≡ some original)
            × (v.validate (text original) ≡ false))
    pub end : r' ≡ record {
      world = (v.commit_offsets s).1;
      replayed = r.replayed;
      journal = r.journal ++ commit (succeeded (v.commit_offsets s).0) ∷ [];
    }

  module _ (rd : Reader) where
    skip_garbage_lem :
        (x : Outcome (Unit {0}) × Run S)
        → ¬ (x.0 ≡ raise json_error)
        → run_of v rd (after_message v rd (skip_garbage v rd x)) ≡ x.1
    unfolding skip_garbage after_message
    skip_garbage_lem (ret u, r) h = refl
    skip_garbage_lem (raise json_error, r) h = absurd (h refl)
    skip_garbage_lem (raise e, r) h = refl

    replay_message-letter :
        (letter : DeadLetter) (r : Run S)
        → v.loads (some (cd.dump_letter letter)) ≡ ret (envelope letter)
        → replay_message v rd (some (cd.dump_letter letter)) r
          ≡ replay_value v rd (text_or_null letter.original_value) r
    unfolding replay_message
    replay_message-letter letter r loaded = rw (loaded, replay_message, get-envelope letter) refl

    after_send_lem :
        Laws
        → (original : String) (x : Outcome (Unit {0}) × S) (r : Run S) → ¬ (x.0 ≡ raise json_error)
        → run_of v rd (after_message v rd (skip_garbage v rd (after_send v rd (text original) x r)))
          ≡ after_sending original x r
    unfolding after_send commit_one
    after_send_lem laws original (raise e, s) r h =
        skip_garbage_lem (after_send v rd (text original) (raise e, s) r) h
    after_send_lem laws original (ret u, s) r h =
        skip_garbage_lem (after_send v rd (text original) (ret u, s) r) (laws.commit-raise s)
        ∙ ap
            (λ j. record { world = (v.commit_offsets s).1; replayed = suc r.replayed; journal = j })
            (append_assoc r.journal _ _)

    skip_lem :
        Laws
        → (r : Run S)
        → run_of v rd (after_message v rd (skip_garbage v rd (commit_one v rd r))) ≡ record {
          world = (v.commit_offsets r.world).1;
          replayed = r.replayed;
          journal = r.journal ++ commit (succeeded (v.commit_offsets r.world).0) ∷ [];
        }
    unfolding commit_one
    skip_lem laws r = skip_garbage_lem (commit_one v rd r) (laws.commit-raise r.world)

    valid-truthy : Laws → (t : String) → v.validate (text t) ≡ true → truthy rd (text t) ≡ true
    unfolding truthy
    valid-truthy laws t h = elim (Bool-cases (str_eq t "")) [
      | inl e ↦
          let same : t ≡ "" = (eq_iff t "").0 e in
          absurd (true-ne-false (sym h ∙ ap (λ x. v.validate (text x)) same ∙ laws.validate-empty))
      | inr e ↦ rw e refl
    ]

    replay_value-null : (r : Run S) → replay_value v rd null r ≡ commit_one v rd r
    unfolding replay_value truthy
    replay_value-null r = refl

    replay_value-invalid :
        (t : String) (r : Run S)
        → v.validate (text t) ≡ false
        → replay_value v rd (text t) r ≡ commit_one v rd r
    unfolding replay_value
    replay_value-invalid t r bad = ground (arith, bad)

    replay_value-valid :
        Laws
        → (content : Bytes) (t : String) (r : Run S) → cd.decode content ≡ some t
        → v.validate (text t) ≡ true
        → replay_value v rd (text t) r ≡ after_send v rd (text t) (v.send content r.world) r
    unfolding replay_value publish_value payload_of
    replay_value-valid laws content t r decoded ok =
        rw
          (
            valid-truthy laws t ok,
            ok,
            publish_value,
            payload_of,
            laws.encode-decode content t decoded,
          )
          refl

    -- What becomes of an original value.
    value-Fate :
        Laws
        → (m : Message) (o : Option String) (r : Run S) (s : S) (r' : Run S) → HasText cd m.value o
        → r'
          ≡ run_of v rd (
              after_message v rd
                (skip_garbage v rd (replay_value v rd (text_or_null o) (record r { world = s }))))
        → Republished m s r r' ⊎ Skipped m s r r'
    value-Fate laws m none r s r' h e = inr (record {
      reason = elim h [ inl x ↦ inl x | inr x ↦ inr (inl x) ];
      end =
          (rw (replay_value-null (record r { world = s })) at e)
          ∙ skip_lem laws (record r { world = s });
    })
    value-Fate laws m (some t) r s r' (content, held, decoded) e =
        let here : Run S = record r { world = s } in
        elim (Bool-cases (v.validate (text t))) [
          | inl ok ↦ inl (record {
            content = content;
            value = held;
            original = t;
            decoded = decoded;
            valid = ok;
            end =
                (rw (replay_value-valid laws content t here decoded ok) at e)
                ∙ after_send_lem laws t (v.send content s) here (laws.send-raise content s);
          })
          | inr bad ↦ inr (record {
            reason = inr (inr (content, t, held, decoded, bad));
            end = (rw (replay_value-invalid t here bad) at e) ∙ skip_lem laws here;
          })
        ]

    -- A dead letter comes back as it was. When the script takes the letter that a consumer made of a
    -- message, and has not reached its limit, one of two things happens. If the message has a value
    -- that is a log event, the very bytes of it are handed to `send`, once; if that succeeds the
    -- message is counted and the offset is committed, and if not neither. If it has none, or one that
    -- is no log event, nothing is sent and the offset is committed. It takes a json that reads back the
    -- letter.
    pub replay_round-letter_of :
        Laws
        → (st : Settings) (m : Message) (letter : DeadLetter) (limit : ℕ) (r : Run S) (s : S)
        → letter_of cd st m ≡ ret letter
        → v.loads (some (cd.dump_letter letter)) ≡ ret (envelope letter)
        → v.getone r.world ≡ (ret (some (some (cd.dump_letter letter))), s)
        → r.replayed < limit
        → Republished m s r (run_of v rd (replay_round v rd limit r))
          ⊎ Skipped m s r (run_of v rd (replay_round v rd limit r))
    unfolding replay_round after_getone
    replay_round-letter_of laws st m letter limit r s made loaded got below =
        value-Fate laws m letter.original_value r s _ (letter_of-HasText cd st m letter made) (
          rw
            (
              lt→ltb r.replayed limit below,
              got,
              after_getone,
              replay_message-letter letter (record r { world = s }) loaded,
            )
            refl)
