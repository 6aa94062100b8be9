-- ===== src/Query/Coherence.antt =====
-- api/routers/query.py: the cache answers what the database answered.
use log_foundry.Prelude.{
  true-ne-false, ℕ, String, ◌≡◌, refl, sym, ap, ◌∙◌, subst, true, false, Option, none, some, List,
  Outcome, ret-ne-raise, ret_inj, ret, raise,
}
use log_foundry.Consumers.Payload.{Json, array, Items, Reader}
use log_foundry.Query.Build.{Filters, build_query}
use log_foundry.Query.Cache.{
  DbRow, Services, Response, cache_key, records_of, from_cache, answer_of, after_setex,
  after_records, after_fetch, after_get, query_logs,
}

none-ne-some : {t : String} → ¬ (none ≡ some t)
none-ne-some h = cc

some_inj : {t u : String} → some t ≡ some u → t ≡ u
some_inj h = cc

-- An answer from the cache says so.
answer_of-hit : (o : Option Json) (a : Response) → answer_of o ≡ ret a → a.cache_hit ≡ true
answer_of-hit none a h = absurd (ret-ne-raise (sym h))
answer_of-hit (some (array items)) a h = ap (λ r. r.cache_hit) (sym (ret_inj h))
answer_of-hit (some _) a h = absurd (ret-ne-raise (sym h))

-- The answer to a miss and that to a hit.
abbrev pub hit_of : Response → Response
hit_of a = record a { cache_hit = true }

module _ (rd : Reader) (sha256 : String → String) (isoformat : ℕ → String) {S : Type 0}
    (v : Services S) (f : Filters) where
  after_get-some :
      (x : Outcome (Option String) × S) (c : String)
      → x.0 ≡ ret (some c)
      → (after_get rd sha256 isoformat v f x).0 ≡ from_cache rd sha256 isoformat v c
  after_get-some (raise e, s) c h = absurd (ret-ne-raise (sym h))
  after_get-some (ret none, s) c h = absurd (none-ne-some (ret_inj h))
  after_get-some (ret (some d), s) c h =
      ap (λ t. from_cache rd sha256 isoformat v t) (some_inj (ret_inj h))

  -- The next answer after one.
  abbrev Again : Outcome Response × S → Type 0
  Again x =
      (a : Response)
      → x.0 ≡ ret a
      → a.cache_hit ≡ false
      → rd.loads (rd.dumps (array a.results)) ≡ some (array a.results)
      → (query_logs rd sha256 isoformat v f x.1).0 ≡ ret (hit_of a)

  abbrev answered : Response → Outcome Response
  answered r = ret (hit_of r)

  hit_cached :
      (c : String) (a : Response) → from_cache rd sha256 isoformat v c ≡ ret a → a.cache_hit ≡ true
  unfolding from_cache
  hit_cached c a h = answer_of-hit (rd.loads c) a h

  stored-Again :
      (items : Items) (x : Outcome (Unit {0}) × S)
      → (x.0 ≡ ret tt
          → (v.get (cache_key rd sha256 isoformat f) x.1).0 ≡ ret (some (rd.dumps (array items))))
      → Again (after_setex rd sha256 isoformat v items x)
  unfolding query_logs from_cache
  stored-Again items (ret u, s) stored a h miss reads =
      after_get-some (v.get (cache_key rd sha256 isoformat f) s) (rd.dumps (array items))
        (stored refl)
      ∙ ap (λ o. answer_of o)
          (subst (λ i. rd.loads (rd.dumps (array i)) ≡ some (array i))
            (sym (ap (λ r. r.results) (ret_inj h))) reads)
      ∙ ap (λ r. answered r) (ret_inj h)
  stored-Again items (raise e, s) stored a h miss reads = absurd (ret-ne-raise (sym h))

  records-Again : (o : Outcome Items) (s : S) → Again (after_records rd sha256 isoformat v f o s)
  records-Again (ret items) s a h miss reads =
      let key = cache_key rd sha256 isoformat f in
      let value = rd.dumps (array items) in
      stored-Again items (v.setex key 30 value s) (v.get-setex key 30 value s) a h miss reads
  records-Again (raise e) s a h miss reads = absurd (ret-ne-raise (sym h))

  fetch-Again : (x : Outcome (List DbRow) × S) → Again (after_fetch rd sha256 isoformat v f x)
  fetch-Again (ret rows, s) a h miss reads =
      records-Again (records_of rd sha256 isoformat rows) s a h miss reads
  fetch-Again (raise e, s) a h miss reads = absurd (ret-ne-raise (sym h))

  get-Again : (x : Outcome (Option String) × S) → Again (after_get rd sha256 isoformat v f x)
  get-Again (raise e, s) a h miss reads = absurd (ret-ne-raise (sym h))
  get-Again (ret (some c), s) a h miss reads =
      absurd (true-ne-false (sym (hit_cached c a h) ∙ miss))
  get-Again (ret none, s) a h miss reads =
      fetch-Again (v.fetch (build_query f).0 (build_query f).1 s) a h miss reads

  -- A search that is answered from the database is answered from the cache when it is asked again
  -- before anything else happens and the entry expires: with the same results and the same count,
  -- and marked as a hit. It takes results whose JSON text is read back as what it was.
  pub query_logs-again :
      (s : S) (a : Response)
      → (query_logs rd sha256 isoformat v f s).0 ≡ ret a
      → a.cache_hit ≡ false
      → rd.loads (rd.dumps (array a.results)) ≡ some (array a.results)
      → (query_logs rd sha256 isoformat v f (query_logs rd sha256 isoformat v f s).1).0
        ≡ ret (hit_of a)
  unfolding query_logs
  query_logs-again s = get-Again (v.get (cache_key rd sha256 isoformat f) s)
