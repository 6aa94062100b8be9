-- ===== src/Consumers/Parts.antt =====
-- consumers/base_consumer.py: the parts of the start and the end of a consumer.
use log_foundry.Prelude.{
  ℕ, zero, suc, ◌≡◌, refl, ap, ◌∙◌, Bool, true, false, List, [], ◌∷◌, ◌++◌, ret, raise, Exc,
}
use log_foundry.Consumers.Lifecycle.{
  Client, consumer, producer, pool, redis, opened, closed, Life, Clients, then_do, open_part,
  close_part, consume_while,
}

-- A consumer before `start`.
abbrev pub fresh : {R : Type 0} → R → Life R
fresh r = record { run = r; running = false; acts = [] }

-- Rounds in which no signal arrives.
abbrev pub quiet : ℕ → List Bool
quiet zero = []
quiet (suc n) = false ∷ quiet n

module _ {R : Type 0} (c : Clients R) (round : R → R) where
  abbrev pub rounds : ℕ → R → R
  rounds zero r = r
  rounds (suc n) r = rounds n (round r)

  consume_while_stopped :
      (signals : List Bool) (l : Life R) → l.running ≡ false → consume_while c round signals l ≡ l
  unfolding consume_while
  consume_while_stopped [] l h = refl
  consume_while_stopped (signal ∷ signals) l h = rw h refl

  pub consume_while-quiet :
      (n : ℕ) (signals : List Bool) (l : Life R)
      → l.running ≡ true
      → consume_while c round (quiet n ++ true ∷ signals) l
        ≡ record l { run = rounds (suc n) l.run; running = false }
  unfolding consume_while
  consume_while-quiet zero signals l h =
      rw (h, consume_while) (consume_while_stopped signals _ refl)
  consume_while-quiet (suc n) signals l h =
      rw (h, consume_while) (consume_while-quiet n signals _ refl)

  abbrev pub begun : Client → R → R
  begun p r = (c.start_client p r).1

  abbrev pub ended : Client → R → R
  ended p r = (c.stop_client p r).1

  abbrev pub after_open : Client → Bool → R → Life R → Life R
  after_open p ok r l = record l { run = r; acts = l.acts ++ opened p ok ∷ [] }

  abbrev pub after_close : Client → R → Life R → Life R
  after_close p r l = record l { run = r; acts = l.acts ++ closed p true ∷ [] }

  pub open_part_ret :
      (p : Client) (l : Life R)
      → (c.start_client p l.run).0 ≡ ret tt
      → open_part c p l ≡ (ret tt, after_open p true (begun p l.run) l)
  unfolding open_part
  open_part_ret p l h = rw (h, open_part) refl

  pub open_part_raise :
      (p : Client) (l : Life R) (e : Exc)
      → (c.start_client p l.run).0 ≡ raise e
      → open_part c p l ≡ (raise e, after_open p false (begun p l.run) l)
  unfolding open_part
  open_part_raise p l e h = rw (h, open_part) refl

  close_part_ret :
      (p : Client) (l : Life R)
      → (c.stop_client p l.run).0 ≡ ret tt
      → close_part c p l ≡ (ret tt, after_close p (ended p l.run) l)
  unfolding close_part
  close_part_ret p l h = rw (h, close_part) refl

  pub close_both :
      (p q : Client) (l : Life R)
      → (c.stop_client p l.run).0 ≡ ret tt
      → (c.stop_client q (ended p l.run)).0 ≡ ret tt
      → then_do (close_part c p l) (close_part c q)
        ≡ (ret tt, after_close q (ended q (ended p l.run)) (after_close p (ended p l.run) l))
  close_both p q l h g =
      ap (λ x. then_do x (close_part c q)) (close_part_ret p l h)
      ∙ close_part_ret q (after_close p (ended p l.run) l) g

  -- The state after all four have begun.
  abbrev pub all_begun : R → R
  all_begun r = begun producer (begun consumer (begun redis (begun pool r)))
