-- ===== src/Replay/Moves.antt =====
-- scripts/replay_dlq.py: parts of a run, and what they may publish.
use log_foundry.Prelude.{
  ℕ, suc, ◌+◌, ◌≤◌, ◌≡◌, sym, ap, ◌∙◌, true, false, List, [], ◌∷◌, ◌++◌, All, All-append,
  append_assoc, append-nil, arith,
}
use log_foundry.Consumers.Payload.{Reader, truthy}
use log_foundry.Replay.{Act, publish, commit, Services, Run}

-- How many messages were published.
abbrev pub published : List Act → ℕ
published [] = 0
published (publish value true ∷ acts) = suc (published acts)
published (publish value false ∷ acts) = published acts
published (commit b ∷ acts) = published acts

pub published-append : (a b : List Act) → published (a ++ b) ≡ published a + published b
published-append [] b = omega arith
published-append (publish value true ∷ a) b = omega (arith, published-append a b)
published-append (publish value false ∷ a) b = published-append a b
published-append (commit c ∷ a) b = published-append a b

module _ {S : Type 0} (v : Services S) (rd : Reader) where
  -- Only an original value that is there and is a log event is published.
  abbrev pub IsValid : Act → Type 0
  IsValid (publish value b) = (truthy rd value ≡ true) × (v.validate value ≡ true)
  IsValid (commit b) = Unit

  -- A part of a run: its acts, which are valid, with a count of the messages that were published.
  pub record Moves (most : ℕ) (r r' : Run S) : Type 0 where
    pub acts : List Act
    pub journal : r'.journal ≡ r.journal ++ acts
    pub count : r'.replayed ≡ r.replayed + published acts
    pub valid : All IsValid acts
    pub bound : published acts ≤ most
    pub left : v.left r'.world ≤ v.left r.world

  pub Moves-refl : (most : ℕ) (r : Run S) → Moves most r r
  Moves-refl most r = record {
    acts = [];
    journal = sym (append-nil r.journal);
    count = omega arith;
    valid = tt;
    bound = omega arith;
    left = omega arith;
  }

  pub Moves-trans :
      {m n : ℕ} {r r' r'' : Run S} → Moves m r r' → Moves n r' r'' → Moves (m + n) r r''
  Moves-trans {r = r} p q = record {
    acts = p.acts ++ q.acts;
    journal = q.journal ∙ ap (λ l. l ++ q.acts) p.journal ∙ append_assoc r.journal p.acts q.acts;
    count = (let a = p.count in let b = q.count in omega (arith, published-append p.acts q.acts));
    valid = All-append IsValid p.acts q.acts p.valid q.valid;
    bound = (let a = p.bound in let b = q.bound in omega (arith, published-append p.acts q.acts));
    left = (let a = p.left in let b = q.left in omega arith);
  }

  pub Moves-weaken : {r r' : Run S} → Moves 0 r r' → Moves 1 r r'
  Moves-weaken p = record {
    acts = p.acts;
    journal = p.journal;
    count = p.count;
    valid = p.valid;
    bound = (let b = p.bound in omega arith);
    left = p.left;
  }

  -- A message was taken first.
  pub Moves-taken :
      (s : S) {r r' : Run S}
      → Moves 1 (record r { world = s }) r'
      → v.left s ≤ v.left r.world
      → Moves 1 r r'
  Moves-taken s p le = record {
    acts = p.acts;
    journal = p.journal;
    count = p.count;
    valid = p.valid;
    bound = p.bound;
    left = (let b = p.left in omega arith);
  }
