-- ===== src/Reconciler/Clients/Sharing.antt =====
-- What any number of concurrent calls of Get in pkg/githubreconciler/client.go do with the cache.
use terraform_cloudrun_glue.Base.{
  ◌≡◌, refl, sym, ap, ◌∙◌, inl, inr, Bool-cases, Option, none, some, List, [], ◌∷◌, subst, Memᴰ,
  Text, text_eq, text_eq_iff, Dict, lookup, insert, lookup-insert_self, lookup-insert_fresh, Result,
  returns, fails, All, All-map, Differ, IsMap,
}
use mathlib.Core.List.Memᴰ
use terraform_cloudrun_glue.Reconciler.Clients.{create_found, create_client}

module _ (Client : Type 0) where
  abbrev pub Log : Type 0
  Log = List (Text × Client)

  -- Making a client for a key, with this answer: a client that is made goes to the log.
  abbrev pub making : Text → Result Client → Log → Result Client × Log
  making k (fails e) made = (fails e, made)
  making k (returns c) made = (returns c, (k, c) ∷ made)

  -- The cache, the keys that a Get has missed and whose write lock it waits for, the clients that
  -- were made, and those that were returned.
  pub record State : Type 0 where
    pub clients : Dict Client
    pub missed : List Text
    pub made : Log
    pub answers : Log

  -- What a call of Get does under a lock; `answer` is what making a client would give.
  pub data Step : State → State → Type 0 where
    hit :
        {s : State} (k : Text) (c : Client)
        → lookup k s.clients ≡ some c
        → Step s (record s { answers = (k, c) ∷ s.answers })
    miss :
        {s : State} (k : Text)
        → lookup k s.clients ≡ none
        → Step s (record s { missed = k ∷ s.missed })
    create :
        {s : State} (k : Text) (answer : Result Client) (c : Client) (after : Dict Client)
        (made : Log)
        → Memᴰ k s.missed
        → create_client k (making k answer) s.clients s.made ≡ (returns c, (after, made))
        → Step s (record s { clients = after; made = made; answers = (k, c) ∷ s.answers })
    give_up :
        {s : State} (k : Text) (answer : Result Client) (e : Text) (after : Dict Client)
        (made : Log)
        → Memᴰ k s.missed
        → create_client k (making k answer) s.clients s.made ≡ (fails e, (after, made))
        → Step s (record s { clients = after; made = made })

  pub data Reach : State → Type 0 where
    start : Reach (record { clients = []; missed = []; made = []; answers = [] })
    step : {s t : State} → Reach s → Step s t → Reach t

  abbrev Cached : Dict Client → Text × Client → Type 0
  Cached m a = lookup a.0 m ≡ some a.1

  -- Every client that was made or returned is in the cache, and none was made twice for a key.
  record Inv (m : Dict Client) (made answers : Log) : Type 0 where
    made_cached : All (Cached m) made
    once : IsMap made
    answers_cached : All (Cached m) answers

  apart :
      (k : Text) (c : Client) (m : Dict Client) (l : Log)
      → lookup k m ≡ none
      → All (Cached m) l
      → All (Differ (k, c)) l
  apart k c m [] e h = tt
  apart k c m ((j, d) ∷ l) e h = (
    elim (Bool-cases (text_eq k j)) [
      | inr other ↦ other
      | inl same ↦
          let f : lookup k m ≡ some d = ap (λ i. lookup i m) ((text_eq_iff k j).0 same) ∙ h.0 in
          absurd (cc)
    ],
    apart k c m l e h.1,
  )

  create_found-Inv :
      (k : Text) (o : Option Client) (answer : Result Client) (m : Dict Client) (made l : Log)
      → lookup k m ≡ o
      → Inv m made l
      → let out = create_found k o (making k answer) m made in Inv out.1.0 out.1.1 l
  create_found-Inv k (some c) answer m made l f v = v
  create_found-Inv k none (fails e) m made l f v = v
  create_found-Inv k none (returns c) m made l f v =
      let fresh : (x : Log) → All (Cached m) x → All (Cached (insert k c m)) x = λ x h.
        All-map (Cached m) (Cached (insert k c m)) x (λ a e. lookup-insert_fresh a.0 k c a.1 m f e)
          h in
      record {
        made_cached = (lookup-insert_self k c m, fresh made v.made_cached);
        once = (apart k c m made f v.made_cached, v.once);
        answers_cached = fresh l v.answers_cached;
      }

  create_found-Cached :
      (k : Text) (c : Client) (o : Option Client) (answer : Result Client) (m : Dict Client)
      (made : Log)
      → lookup k m ≡ o
      → let out = create_found k o (making k answer) m made in
        out.0 ≡ returns c → Cached out.1.0 (k, c)
  create_found-Cached k c (some b) answer m made f e = let same : b ≡ c = cc in f ∙ ap some same
  create_found-Cached k c none (fails x) m made f e = let h = e in absurd (cc)
  create_found-Cached k c none (returns b) m made f e =
      let same : b ≡ c = cc in lookup-insert_self k b m ∙ ap some same

  create_client-Inv :
      (k : Text) (answer r : Result Client) (m after : Dict Client) (made made' l : Log)
      → create_client k (making k answer) m made ≡ (r, (after, made'))
      → Inv m made l
      → Inv after made' l
  unfolding create_client
  create_client-Inv k answer r m after made made' l e v =
      subst (λ x. Inv x.1.0 x.1.1 l) e (create_found-Inv k (lookup k m) answer m made l refl v)

  create_client-Cached :
      (k : Text) (c : Client) (answer : Result Client) (m after : Dict Client) (made made' : Log)
      → create_client k (making k answer) m made ≡ (returns c, (after, made'))
      → Cached after (k, c)
  unfolding create_client
  create_client-Cached k c answer m after made made' e =
      subst (λ x. Cached x.1.0 (k, c)) e
        (create_found-Cached k c (lookup k m) answer m made refl (ap (λ x. x.0) e))

  Reach-Sound : {s : State} → Reach s → Inv s.clients s.made s.answers
  Reach-Sound start = record { made_cached = tt; once = tt; answers_cached = tt }
  Reach-Sound (step r (hit k c e)) =
      let v = Reach-Sound r in
      record { made_cached = v.made_cached; once = v.once; answers_cached = (e, v.answers_cached) }
  Reach-Sound (step r (miss k e)) = Reach-Sound r
  Reach-Sound (step {s = s} r (create k answer c after made m e)) =
      let v =
        create_client-Inv k answer (returns c) s.clients after s.made made s.answers e
          (Reach-Sound r) in
      record {
        made_cached = v.made_cached;
        once = v.once;
        answers_cached =
            (create_client-Cached k c answer s.clients after s.made made e, v.answers_cached);
      }
  Reach-Sound (step {s = s} r (give_up k answer x after made m e)) =
      create_client-Inv k answer (fails x) s.clients after s.made made s.answers e (Reach-Sound r)

  member :
      (m : Dict Client) (k : Text) (c : Client) (l : Log)
      → All (Cached m) l
      → Memᴰ (k, c) l
      → lookup k m ≡ some c
  member m k c [] h t = absurd (Memᴰ.not-nil t)
  member m k c (a ∷ l) h (Memᴰ.head e) = ap (λ b. lookup b.0 m) e ∙ h.0 ∙ ap (λ b. some b.1) (sym e)
  member m k c (a ∷ l) h (Memᴰ.tail t) = member m k c l h.1 t

  -- As long as the cache is not cleared, any number of concurrent calls of Get for one repository
  -- return one client, and no client is made for a repository for which one was made before.
  pub Reach-one_client :
      (s : State)
      → Reach s
      → ((k : Text) (c d : Client) → Memᴰ (k, c) s.answers → Memᴰ (k, d) s.answers → c ≡ d)
        × IsMap s.made
  Reach-one_client s r = (
    λ k c d m n.
        let e = member s.clients k c s.answers (Reach-Sound r).answers_cached m in
        let f = member s.clients k d s.answers (Reach-Sound r).answers_cached n in cc,
    (Reach-Sound r).once,
  )
