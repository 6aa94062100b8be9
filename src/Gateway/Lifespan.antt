-- ===== src/Gateway/Lifespan.antt =====
-- api/main.py: `lifespan` and `_setup_otel`. The part `producer` is the KafkaLogProducer.
use log_foundry.Prelude.{
  ◌≡◌, refl, sym, ap, ◌∙◌, String, List, [], ◌∷◌, ◌++◌, append_assoc, append-nil, Outcome, ◌>>=◌,
  ret, raise, Exc, ◌⊎◌, inl, inr, Outcome-cases, ret-ne-raise,
}
use log_foundry.Prelude.Int.{ℤ}
use log_foundry.Consumers.Lifecycle.{
  Client, producer, pool, redis, LifeAct, opened, closed, Life, Clients, Method, then_do, open_part,
  close_part,
}

-- `int(os.getenv(name, default))` of the limit and the window, for the RateLimiter.
unfoldable pub read_limits : (String → String → Outcome ℤ) → Outcome (ℤ × ℤ)
read_limits getenv_int = do
  limit ← getenv_int "RATE_LIMIT_REQUESTS" "100"
  window_seconds ← getenv_int "RATE_LIMIT_WINDOW_SECONDS" "60"
  ret (limit, window_seconds)

module _ {R : Type 0} (c : Clients R) (limits : Outcome (ℤ × ℤ)) where
  abbrev pub with_limits : Outcome (ℤ × ℤ) → Life R → Method R → Outcome (Unit {0}) × Life R
  with_limits (raise e) l f = (raise e, l)
  with_limits (ret pair) l f = f l

  -- The part before `yield`.
  unfoldable pub startup : Method R
  unfolding open_part
  startup l =
      then_do (open_part c redis l)
        (λ l. with_limits limits l (λ l. then_do (open_part c pool l) (open_part c producer)))

  -- The part after it.
  unfoldable pub shutdown : Method R
  unfolding close_part
  shutdown l =
      then_do (close_part c producer l) (λ l. then_do (close_part c pool l) (close_part c redis))

  -- The application between the two, which leaves these clients open.
  unfoldable pub lifespan : (R → R) → Method R
  unfolding startup shutdown
  lifespan serve l = then_do (startup l) (λ l. shutdown (record l { run = serve l.run }))

-- The calls that were made, whether they succeeded or not.
pub data LifeCall : Type 0 where
  starts stops : Client → LifeCall

abbrev pub call_of : LifeAct → LifeCall
call_of (opened p ok) = starts p
call_of (closed p ok) = stops p

abbrev pub calls : List LifeAct → List LifeCall
calls [] = []
calls (act ∷ acts) = call_of act ∷ calls acts

calls-snoc :
    (acts : List LifeAct) (act : LifeAct)
    → calls (acts ++ act ∷ []) ≡ calls acts ++ call_of act ∷ []
calls-snoc [] act = refl
calls-snoc (first ∷ acts) act = ap (λ l. call_of first ∷ l) (calls-snoc acts act)

module _ {R : Type 0} where
  -- What was called since `before` is the beginning of a plan; all of it unless something is raised.
  pub record Follows (plan : List LifeCall) (before : List LifeAct)
      (x : Outcome (Unit {0}) × Life R) : Type 0 where
    pub left : List LifeCall
    pub beginning : calls x.1.acts ++ left ≡ calls before ++ plan
    pub ends : ((x.0 ≡ ret tt) × (left ≡ [])) ⊎ ((e : Exc) × (x.0 ≡ raise e))

  -- Nothing was called before an error.
  Follows-raise : (plan : List LifeCall) (l : Life R) (e : Exc) → Follows plan l.acts (raise e, l)
  Follows-raise plan l e = record { left = plan; beginning = refl; ends = inr (e, refl) }

  Follows-last :
      (q : LifeCall) (before : List LifeAct) (x : Outcome (Unit {0}) × Life R)
      → calls x.1.acts ≡ calls before ++ q ∷ []
      → Follows (q ∷ []) before x
  Follows-last q before (o, l) e = record {
    left = [];
    beginning = append-nil (calls l.acts) ∙ e;
    ends = elim (Outcome-cases o) [ inl (ok, f) ↦ inl (f, refl) | inr (x, f) ↦ inr (x, f) ];
  }

  -- A plan after another.
  Follows-append :
      (first second : List LifeCall) (before : List LifeAct) (x : Outcome (Unit {0}) × Life R)
      (f : Method R)
      → Follows first before x
      → ((l : Life R) → Follows second l.acts (f l))
      → Follows (first ++ second) before (then_do x f)
  Follows-append first second before (ret ok, l) f a h = elim a.ends [
    | inl (r, e) ↦
        let g = h l in
        let all : calls l.acts ≡ calls before ++ first =
          sym (append-nil (calls l.acts)) ∙ ap (λ k. calls l.acts ++ k) (sym e) ∙ a.beginning in
        record {
          left = g.left;
          beginning =
              g.beginning ∙ ap (λ k. k ++ second) all ∙ append_assoc (calls before) first second;
          ends = g.ends;
        }
    | inr (x, e) ↦ absurd (ret-ne-raise e)
  ]
  Follows-append first second before (raise x, l) f a h = record {
    left = a.left ++ second;
    beginning =
        sym (append_assoc (calls l.acts) a.left second)
        ∙ ap (λ k. k ++ second) a.beginning
        ∙ append_assoc (calls before) first second;
    ends = inr (x, refl);
  }

module _ {R : Type 0} (c : Clients R) where
  open_part-Follows : (p : Client) (l : Life R) → Follows (starts p ∷ []) l.acts (open_part c p l)
  unfolding open_part
  open_part-Follows p l = Follows-last (starts p) l.acts (open_part c p l) (calls-snoc l.acts _)

  close_part-Follows : (p : Client) (l : Life R) → Follows (stops p ∷ []) l.acts (close_part c p l)
  unfolding close_part
  close_part-Follows p l = Follows-last (stops p) l.acts (close_part c p l) (calls-snoc l.acts _)

  module _ (limits : Outcome (ℤ × ℤ)) where
    with_limits-Follows :
        (plan : List LifeCall) (o : Outcome (ℤ × ℤ)) (l : Life R) (f : Method R)
        → Follows plan l.acts (f l)
        → Follows plan l.acts (with_limits c limits o l f)
    with_limits-Follows plan (ret pair) l f a = a
    with_limits-Follows plan (raise e) l f a = Follows-raise plan l e

    startup-Follows :
        (l : Life R)
        → Follows (starts redis ∷ starts pool ∷ starts producer ∷ []) l.acts (startup c limits l)
    unfolding startup
    startup-Follows l =
        let rest : Method R = λ l. then_do (open_part c pool l) (open_part c producer) in
        Follows-append (starts redis ∷ []) (starts pool ∷ starts producer ∷ []) l.acts
          (open_part c redis l) (λ l. with_limits c limits limits l rest)
          (open_part-Follows redis l)
          (λ l. with_limits-Follows _ limits l rest (
            Follows-append (starts pool ∷ []) (starts producer ∷ []) l.acts (open_part c pool l)
              (open_part c producer) (open_part-Follows pool l) (open_part-Follows producer)))

    shutdown-Follows :
        (l : Life R)
        → Follows (stops producer ∷ stops pool ∷ stops redis ∷ []) l.acts (shutdown c limits l)
    unfolding shutdown
    shutdown-Follows l =
        Follows-append (stops producer ∷ []) (stops pool ∷ stops redis ∷ []) l.acts
          (close_part c producer l) (λ l. then_do (close_part c pool l) (close_part c redis))
          (close_part-Follows producer l)
          (λ l.
            Follows-append (stops pool ∷ []) (stops redis ∷ []) l.acts (close_part c pool l)
              (close_part c redis) (close_part-Follows pool l) (close_part-Follows redis))

    -- Whatever the calls return or raise, the application opens Redis, the pool and the producer, and
    -- then closes the producer, the pool and Redis, in this order: it makes all of these calls and
    -- returns, or raises after some of them, and makes none of the others.
    pub lifespan-Follows :
        (serve : R → R) (l : Life R)
        → Follows
            (starts redis
              ∷ starts pool
              ∷ starts producer
              ∷ stops producer
              ∷ stops pool
              ∷ stops redis
              ∷ [])
            l.acts
            (lifespan c limits serve l)
    unfolding lifespan
    lifespan-Follows serve l =
        Follows-append (starts redis ∷ starts pool ∷ starts producer ∷ [])
          (stops producer ∷ stops pool ∷ stops redis ∷ []) l.acts (startup c limits l)
          (λ l. shutdown c limits (record l { run = serve l.run })) (startup-Follows l)
          (λ l. shutdown-Follows (record l { run = serve l.run }))
