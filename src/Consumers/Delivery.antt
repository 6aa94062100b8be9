-- ===== src/Consumers/Delivery.antt =====
-- consumers/base_consumer.py: delivery at least once. The loop commits no message that it has not
-- settled, by a successful attempt or by handing it to the dead-letter topic.
use log_foundry.Prelude.{
  ℕ, zero, suc, ◌-◌, ◌≡◌, refl, ap, sym, ◌∙◌, ◌⊎◌, inl, inr, Bool, true, List, [], ◌∷◌, ◌++◌, ltb,
  append_assoc, append-nil, Outcome-cases, Bool-cases, All, All-append,
}
use log_foundry.Consumers.Kafka.{Message, Call, Batches, Kafka, Quiet, messages_of}
use log_foundry.Consumers.Base.{
  Act, attempt, dead_letter, Run, Codec, Settings, letter_of, try_dead_letter, send_to_dead_letter,
  attempt_once, wait, retry, run_with_retry, run_batch, run_batches,
}

-- The act ends the work on the message.
abbrev pub Settles : Message → Act → Type 0
Settles m a = (a ≡ attempt m true) ⊎ ((b : Bool) × (a ≡ dead_letter m b))

abbrev pub Settled : List Act → Message → Type 0
Settled [] m = ⊥
Settled (a ∷ acts) m = Settles m a ⊎ Settled acts m

Settled-left : (acts bs : List Act) (m : Message) → Settled acts m → Settled (acts ++ bs) m
Settled-left [] bs m h = elim h [ ]
Settled-left (a ∷ acts) bs m (inl h) = inl h
Settled-left (a ∷ acts) bs m (inr h) = inr (Settled-left acts bs m h)

Settled-right : (acts bs : List Act) (m : Message) → Settled bs m → Settled (acts ++ bs) m
Settled-right [] bs m h = h
Settled-right (a ∷ acts) bs m h = inr (Settled-right acts bs m h)

-- A journal only grows.
abbrev pub Extends : List Act → List Act → Type 0
Extends before after = (l : List Act) × (after ≡ before ++ l)

Extends-trans : (a b c : List Act) → Extends a b → Extends b c → Extends a c
Extends-trans a _ _ (l, e) (k, f) = (l ++ k, f ∙ ap (λ x. x ++ k) e ∙ append_assoc a l k)

pub Settled-Extends :
    (acts bs : List Act) (ms : List Message)
    → Extends acts bs
    → All (Settled acts) ms
    → All (Settled bs) ms
Settled-Extends acts bs [] x h = tt
Settled-Extends acts bs (m ∷ ms) x h =
    (rw (x.1) (Settled-left acts x.0 m h.0), Settled-Extends acts bs ms x h.1)

module _ {S : Type 0} (k : Kafka S) where
  -- A step of the consumer that settles messages, and moves no offset.
  pub record Settling (ms : List Message) (r r' : Run S) : Type 0 where
    pub grows : Extends r.journal r'.journal
    pub settled : All (Settled r'.journal) ms
    pub delivered : k.delivered r'.world ≡ k.delivered r.world
    pub committed : k.committed r'.world ≡ k.committed r.world

  pub Settling-refl : (r : Run S) → Settling [] r r
  Settling-refl r = record {
    grows = ([], sym (append-nil r.journal));
    settled = tt;
    delivered = refl;
    committed = refl;
  }

  pub Settling-trans :
      (ms ns : List Message) {r r' r'' : Run S}
      → Settling ms r r'
      → Settling ns r' r''
      → Settling (ms ++ ns) r r''
  Settling-trans ms ns p q = record {
    grows = Extends-trans _ _ _ p.grows q.grows;
    settled = All-append (Settled _) ms ns (Settled-Extends _ _ ms q.grows p.settled) q.settled;
    delivered = q.delivered ∙ p.delivered;
    committed = q.committed ∙ p.committed;
  }

module _ {S : Type 0} (k : Kafka S) (c : Codec) (st : Settings) where
  try_dead_letter-Quiet : (m : Message) → Quiet k (try_dead_letter k c st m)
  unfolding try_dead_letter
  try_dead_letter-Quiet m = record {
    delivered = λ s. elim (Outcome-cases (letter_of c st m)) [
      | inl (letter, e) ↦ rw (e, try_dead_letter) (k.send-delivered _ _ _ s)
      | inr (x, e) ↦ rw (e, try_dead_letter)
    ];
    committed = λ s. elim (Outcome-cases (letter_of c st m)) [
      | inl (letter, e) ↦ rw (e, try_dead_letter) (k.send-committed _ _ _ s)
      | inr (x, e) ↦ rw (e, try_dead_letter)
    ];
  }

  pub dead_letter-Settling :
      (m : Message) (r : Run S) → Settling k (m ∷ []) r (send_to_dead_letter k c st m r)
  unfolding send_to_dead_letter
  dead_letter-Settling m r = record {
    grows = (_, refl);
    settled = (Settled-right r.journal _ m (inl (inr (_, refl))), tt);
    delivered = (try_dead_letter-Quiet m).delivered r.world;
    committed = (try_dead_letter-Quiet m).committed r.world;
  }

module _ {S : Type 0} (k : Kafka S) (c : Codec) (st : Settings)
    (process : Message → Call S (Unit {0})) (quiet : (m : Message) → Quiet k (process m)) where
  attempt_once-Settling :
      (m : Message) (r : Run S) → Settling k [] r (attempt_once k c st process m r).1
  unfolding attempt_once
  attempt_once-Settling m r = record {
    grows = (_, refl);
    settled = tt;
    delivered = (quiet m).delivered r.world;
    committed = (quiet m).committed r.world;
  }

  success-Settling :
      (m : Message) (r : Run S)
      → (attempt_once k c st process m r).0 ≡ true
      → Settling k (m ∷ []) r (attempt_once k c st process m r).1
  unfolding attempt_once
  success-Settling m r good = record {
    grows = (_, refl);
    settled = (Settled-right r.journal _ m (inl (inl (ap (attempt m) good))), tt);
    delivered = (quiet m).delivered r.world;
    committed = (quiet m).committed r.world;
  }

  wait-Settling : (n max_retries : ℕ) (r : Run S) → Settling k [] r (wait n max_retries r)
  unfolding wait
  wait-Settling n max_retries r = elim (Bool-cases (ltb n (max_retries - 1))) [
    | inl more ↦
        rw (more, wait)
          (record { grows = (_, refl); settled = tt; delivered = refl; committed = refl })
    | inr last ↦ rw (last, wait) (Settling-refl k r)
  ]

  retry-Settling :
      (left n max_retries : ℕ) (m : Message) (r : Run S)
      → Settling k (m ∷ []) r (retry k c st process left n max_retries m r)
  unfolding retry
  retry-Settling zero n max_retries m r = dead_letter-Settling k c st m r
  retry-Settling (suc left) n max_retries m r =
      elim (Bool-cases (attempt_once k c st process m r).0) [
        | inl good ↦ rw good (success-Settling m r good)
        | inr bad ↦ rw bad (
            Settling-trans k [] (m ∷ []) (attempt_once-Settling m r) (
              Settling-trans k [] (m ∷ []) (wait-Settling n max_retries _)
                (retry-Settling left (suc n) max_retries m _)))
      ]

  run_batch-Settling :
      (ms : List Message) (r : Run S) → Settling k ms r (run_batch k c st process ms r)
  unfolding run_batch run_with_retry
  run_batch-Settling [] r = Settling-refl k r
  run_batch-Settling (m ∷ ms) r =
      Settling-trans k (m ∷ []) ms (retry-Settling 3 0 3 m r) (run_batch-Settling ms _)

  pub run_batches-Settling :
      (b : Batches) (r : Run S) → Settling k (messages_of b) r (run_batches k c st process b r)
  unfolding run_batches
  run_batches-Settling [] r = Settling-refl k r
  run_batches-Settling ((tp, batch) ∷ b) r =
      Settling-trans k batch (messages_of b) (run_batch-Settling batch r) (run_batches-Settling b _)
