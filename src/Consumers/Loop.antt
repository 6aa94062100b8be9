-- ===== src/Consumers/Loop.antt =====
-- consumers/base_consumer.py: `_consume_loop` keeps what it commits within what it has settled.
use log_foundry.Prelude.{
  ◌≡◌, refl, sym, ◌⊎◌, inl, inr, List, [], ◌∷◌, ◌++◌, append-nil, Outcome-cases, All, All-append,
}
use log_foundry.Consumers.Kafka.{Message, Call, Batches, Kafka, Quiet, messages_of}
use log_foundry.Consumers.Base.{Run, Codec, Settings, recover, commit_if, round}
use log_foundry.Consumers.Delivery.{
  Settled, Settled-Extends, Extends, Settling, run_batches-Settling,
}

module _ {S : Type 0} (k : Kafka S) where
  -- Every message that was delivered, and every one that is committed, is settled.
  pub record IsSafe (r : Run S) : Type 0 where
    pub delivered : All (Settled r.journal) (k.delivered r.world)
    pub committed : All (Settled r.journal) (k.committed r.world)

  -- The offsets come from the old ones or from what was delivered, and the journal only grows.
  pub IsSafe-moves :
      (r r' : Run S)
      → IsSafe r
      → Extends r.journal r'.journal
      → k.delivered r'.world ≡ k.delivered r.world
      → (k.committed r'.world ≡ k.delivered r.world) ⊎ (k.committed r'.world ≡ k.committed r.world)
      → IsSafe r'
  IsSafe-moves r r' h x d (inl c) = record {
    delivered = rw d (Settled-Extends _ _ _ x h.delivered);
    committed = rw c (Settled-Extends _ _ _ x h.delivered);
  }
  IsSafe-moves r r' h x d (inr c) = record {
    delivered = rw d (Settled-Extends _ _ _ x h.delivered);
    committed = rw c (Settled-Extends _ _ _ x h.committed);
  }

  recover-IsSafe : (r : Run S) → IsSafe r → IsSafe (recover r)
  recover-IsSafe r h = IsSafe-moves r (recover r) h (_, refl) refl (inr refl)

  pub commit_if-IsSafe : (b : Batches) (r : Run S) → IsSafe r → IsSafe (commit_if k b r)
  unfolding commit_if
  commit_if-IsSafe [] r h = h
  commit_if-IsSafe (b ∷ bs) r h = elim (Outcome-cases (k.commit r.world).0) [
    | inl (u, e) ↦
        rw (e, commit_if)
          (IsSafe-moves r _ h (_, refl) (k.commit-delivered r.world)
            (inl (k.commit-committed r.world e)))
    | inr (x, e) ↦
        rw (e, commit_if)
          (recover-IsSafe _ (
            IsSafe-moves r _ h (_, refl) (k.commit-delivered r.world) (k.commit-raise r.world x e)))
  ]

  -- A poll whose messages are then settled.
  polled-IsSafe :
      (r r' : Run S) (s : S) (ms : List Message)
      → IsSafe r
      → k.delivered s ≡ k.delivered r.world ++ ms
      → k.committed s ≡ k.committed r.world
      → Settling k ms (record r { world = s }) r'
      → IsSafe r'
  polled-IsSafe r r' s ms h d c x = record {
    delivered =
        rw (x.delivered, d)
          (All-append (Settled _) (k.delivered r.world) ms
            (Settled-Extends _ _ _ x.grows h.delivered) x.settled);
    committed = rw (x.committed, c) (Settled-Extends _ _ _ x.grows h.committed);
  }

module _ {S : Type 0} (k : Kafka S) (c : Codec) (st : Settings)
    (process : Message → Call S (Unit {0})) (quiet : (m : Message) → Quiet k (process m)) where
  pub round-IsSafe : (r : Run S) → IsSafe k r → IsSafe k (round k c st process r)
  unfolding round
  round-IsSafe r h = elim (Outcome-cases (k.getmany r.world).0) [
    | inl (b, e) ↦
        rw (e, round)
          (commit_if-IsSafe k b _ (
            polled-IsSafe k r _ (k.getmany r.world).1 (messages_of b) h
              (k.getmany-delivered r.world b e) (k.getmany-committed r.world)
              (run_batches-Settling k c st process quiet b _)))
    | inr (x, e) ↦
        rw (e, round)
          (recover-IsSafe k _ (
            IsSafe-moves k r (record r { world = (k.getmany r.world).1 }) h
              ([], sym (append-nil r.journal)) (k.getmany-raise r.world x e)
              (inr (k.getmany-committed r.world))))
  ]
