-- ===== src/Tests/Clients.antt =====
-- Two calls of Get that miss the cache at the same time.
use terraform_cloudrun_glue.Base.{
  ℕ, ◌≡◌, refl, [], ◌∷◌, Memᴰ, Text, codes, text_eq, lookup, insert, returns, IsMap,
}
use terraform_cloudrun_glue.Reconciler.Clients.{create_client}
use terraform_cloudrun_glue.Reconciler.Clients.Sharing.{
  State, making, miss, create, Reach, start, step, Reach-one_client,
}

abbrev key : Text
key = codes "o/r"

-- Clients are numbers; the second call would make the client 2, but does not.
abbrev both : State ℕ
both = record {
  clients = (key, 1) ∷ [];
  missed = key ∷ key ∷ [];
  made = (key, 1) ∷ [];
  answers = (key, 1) ∷ (key, 1) ∷ [];
}

created :
    create_client key (making ℕ key (returns 1)) [] [] ≡ (returns 1, ((key, 1) ∷ [], (key, 1) ∷ []))
unfolding create_client lookup insert
created = refl

found_again :
    create_client key (making ℕ key (returns 2)) ((key, 1) ∷ []) ((key, 1) ∷ [])
    ≡ (returns 1, ((key, 1) ∷ [], (key, 1) ∷ []))
unfolding create_client lookup text_eq
found_again = refl

both-Reach : Reach ℕ both
unfolding lookup
both-Reach =
    step
      (step (step (step start (miss key refl)) (miss key refl))
        (create key (returns 1) 1 ((key, 1) ∷ []) ((key, 1) ∷ []) (Memᴰ.head refl) created))
      (create key (returns 2) 1 ((key, 1) ∷ []) ((key, 1) ∷ []) (Memᴰ.head refl) found_again)

Reach-one_client_example :
    ((k : Text) (c d : ℕ) → Memᴰ (k, c) both.answers → Memᴰ (k, d) both.answers → c ≡ d)
    × IsMap both.made
Reach-one_client_example = Reach-one_client ℕ both both-Reach
