-- ===== src/Replay/Limits.antt =====
-- scripts/replay_dlq.py: the loop ends, and replays what it may.
use log_foundry.Prelude.{
  ℕ, suc, ◌<◌, ◌≤◌, ◌≡◌, refl, inl, inr, true, false, ltb, Option, none, some, [], ◌∷◌, ◌++◌,
  Outcome, ret, raise, json_error, arith, Bool-cases, Outcome-cases,
}
use log_foundry.Consumers.Payload.{Json, null, Reader, get, truthy}
use log_foundry.Consumers.Base.{succeeded}
use log_foundry.Replay.{
  Value, publish, commit, Services, Run, Next, over, again, commit_one, payload_of, after_send,
  publish_value, replay_value, replay_message, skip_garbage, after_message, after_getone,
  replay_round,
}
use log_foundry.Replay.Moves.{Moves, Moves-refl, Moves-trans, Moves-weaken, Moves-taken}

module _ {S : Type 0} (v : Services S) (rd : Reader) where
  commit_one-Moves : (r : Run S) → Moves v rd 0 r (commit_one v rd r).1
  unfolding commit_one
  commit_one-Moves r = record {
    acts = commit (succeeded (v.commit_offsets r.world).0) ∷ [];
    journal = refl;
    count = omega arith;
    valid = (tt, tt);
    bound = omega arith;
    left = (let e = v.commit-left r.world in omega arith);
  }

  after_send-Moves :
      (value : Json) (o : Outcome (Unit {0})) (s : S) (r : Run S)
      → truthy rd value ≡ true
      → v.validate value ≡ true
      → v.left s ≡ v.left r.world
      → Moves v rd 1 r (after_send v rd value (o, s) r).1
  unfolding after_send
  after_send-Moves value (ret u) s r t h e =
      Moves-trans v rd {m = 1} {n = 0}
        (record {
          acts = publish value true ∷ [];
          journal = refl;
          count = omega arith;
          valid = ((t, h), tt);
          bound = omega arith;
          left = omega arith;
        })
        (commit_one-Moves (record {
          world = s;
          replayed = suc r.replayed;
          journal = r.journal ++ publish value true ∷ [];
        }))
  after_send-Moves value (raise x) s r t h e = record {
    acts = publish value false ∷ [];
    journal = refl;
    count = omega arith;
    valid = ((t, h), tt);
    bound = omega arith;
    left = omega arith;
  }

  publish_value-Moves :
      (value : Json) (r : Run S)
      → truthy rd value ≡ true
      → v.validate value ≡ true
      → Moves v rd 1 r (publish_value v rd value r).1
  unfolding publish_value
  publish_value-Moves value r t h = elim (Outcome-cases (payload_of v rd value)) [
    | inl (bytes, e) ↦
        rw (e, publish_value)
          (after_send-Moves value (v.send bytes r.world).0 (v.send bytes r.world).1 r t h
            (v.send-left bytes r.world))
    | inr (x, e) ↦ rw (e, publish_value) (Moves-refl v rd 1 r)
  ]

  replay_value-Moves : (value : Json) (r : Run S) → Moves v rd 1 r (replay_value v rd value r).1
  unfolding replay_value
  replay_value-Moves value r = elim (Bool-cases (truthy rd value)) [
    | inl t ↦ elim (Bool-cases (v.validate value)) [
      | inl h ↦ rw (t, h) (publish_value-Moves value r t h)
      | inr h ↦ rw (t, h) (Moves-weaken v rd (commit_one-Moves r))
    ]
    | inr t ↦ rw t (Moves-weaken v rd (commit_one-Moves r))
  ]

  replay_message-Moves :
      (payload : Value) (r : Run S) → Moves v rd 1 r (replay_message v rd payload r).1
  unfolding replay_message
  replay_message-Moves payload r = elim (Outcome-cases (v.loads payload)) [
    | inr (x, e) ↦ rw (e, replay_message) (Moves-refl v rd 1 r)
    | inl (wrapper, e) ↦ elim (Outcome-cases (get wrapper "original_value" null)) [
      | inr (x, q) ↦ rw (e, q, replay_message) (Moves-refl v rd 1 r)
      | inl (value, q) ↦ rw (e, q, replay_message) (replay_value-Moves value r)
    ]
  ]

  skip_garbage-Moves :
      (o : Outcome (Unit {0})) {r : Run S} (r' : Run S)
      → Moves v rd 1 r r'
      → Moves v rd 1 r (skip_garbage v rd (o, r')).1
  unfolding skip_garbage
  skip_garbage-Moves (ret u) r' p = p
  skip_garbage-Moves (raise json_error) r' p =
      Moves-trans v rd {m = 1} {n = 0} p (commit_one-Moves r')
  skip_garbage-Moves (raise _) r' p = p

  -- The run that a round leaves, and whether another follows it.
  abbrev pub run_of : Next S → Run S
  run_of (over o r) = r
  run_of (again r) = r

  -- Another round follows only one that took a message.
  abbrev pub Smaller : Run S → Next S → Type 0
  Smaller r (over o r') = Unit
  Smaller r (again r') = v.left r'.world < v.left r.world

  abbrev pub Rounds : Run S → Next S → Type 0
  Rounds r x = Moves v rd 1 r (run_of x) × Smaller r x

  after_message-Rounds :
      (o : Outcome (Unit {0})) (r' : Run S) {r : Run S}
      → Moves v rd 1 r r'
      → v.left r'.world < v.left r.world
      → Rounds r (after_message v rd (o, r'))
  unfolding after_message
  after_message-Rounds (ret u) r' p lt = (p, lt)
  after_message-Rounds (raise e) r' p lt = (p, tt)

  after_getone-Rounds :
      (o : Outcome (Option Value)) (s : S) (r : Run S)
      → v.left s ≤ v.left r.world
      → ((b : Value) → o ≡ ret (some b) → v.left s < v.left r.world)
      → Rounds r (after_getone v rd (o, s) r)
  unfolding after_getone
  after_getone-Rounds (raise e) s r le lt = (Moves-taken v rd s (Moves-refl v rd 1 _) le, tt)
  after_getone-Rounds (ret none) s r le lt = (Moves-taken v rd s (Moves-refl v rd 1 _) le, tt)
  after_getone-Rounds (ret (some b)) s r le lt =
      let start : Run S = record r { world = s } in
      let x = replay_message v rd b start in
      let y = skip_garbage v rd x in
      let p = skip_garbage-Moves x.0 x.1 (replay_message-Moves b start) in
      after_message-Rounds y.0 y.1 (Moves-taken v rd s p le)
        (let fewer = lt b refl in let after = p.left in omega arith)

  pub replay_round-Rounds : (limit : ℕ) (r : Run S) → Rounds r (replay_round v rd limit r)
  unfolding replay_round
  replay_round-Rounds limit r = elim (Bool-cases (ltb r.replayed limit)) [
    | inl more ↦ rw more (
        after_getone-Rounds (v.getone r.world).0 (v.getone r.world).1 r (v.getone-keeps r.world)
          (v.getone-left r.world))
    | inr enough ↦ rw enough (Moves-refl v rd 1 r, tt)
  ]
