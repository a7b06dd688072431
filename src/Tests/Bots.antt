-- ===== src/Tests/Bots.antt =====
-- A bot with two handlers, and its client's calls at concrete inputs.
use terraform_cloudrun_glue.Base.{
  ℕ, zero, suc, ◌≡◌, refl, none, some, List, [], ◌∷◌, inl, inr, pos, Text, codes, text_eq, Memᴰ,
  returns, Result, arith, ending,
}
use terraform_cloudrun_glue.Sdk.Bots.{
  push, issues, event_type, Event, Handler, Bot, returned, panicked, new_bot, receive,
}
use terraform_cloudrun_glue.Sdk.Registering.{IsHandled, receive-new_bot}
use terraform_cloudrun_glue.Sdk.Clients.{Reply, Pull, Api, get_workload_run_pull_request_number}
use terraform_cloudrun_glue.Sdk.Replies.{none_matches, number_of, with_sha, pull_request_number_lem}

-- Handlers of texts that count: the one for pushes panics.
abbrev pushes : Handler Text Text ℕ (λ k. Text)
pushes = record { kind = push; run = λ ctx body n. (panicked, 1) }

abbrev reports : Handler Text Text ℕ (λ k. Text)
reports = record { kind = issues; run = λ ctx body n. (returned none, 2) }

abbrev opened : Event Text Text
opened = record {
  type = codes "dev.chainguard.github.issues";
  subject = codes "o/r";
  extensions = (codes "action", codes "opened") ∷ [];
  payload = codes "{}";
}

receive-new_bot_example :
    (b : Bot Text Text ℕ (λ k. Text)) × (new_bot Text Text ℕ
        (λ k. Text)
        (codes "bot")
        (pushes ∷ reports ∷ [])
      ≡ some b)
    × IsHandled Text Text ℕ
        (λ k. Text)
        (λ k e. returns e.payload)
        reports
        opened
        0
        (receive Text Text ℕ (λ k. Text) (λ k e. returns e.payload) b opened 0)
unfolding event_type text_eq
receive-new_bot_example =
    receive-new_bot Text Text ℕ (λ k. Text) (λ k e. returns e.payload) (codes "bot")
      (pushes ∷ reports ∷ []) reports opened 0 ((refl, tt), (tt, tt)) (Memᴰ.tail (Memᴰ.head refl))
      refl

abbrev created_reply : Reply
created_reply = record {
  status_code = 201;
  status = codes "201 Created";
  check = none;
  next_page = 0;
}

-- Two pages of one pull request each.
abbrev first_pull : Pull
first_pull = record { head_sha = codes "a"; number = pos 1 }

abbrev second_pull : Pull
second_pull = record { head_sha = codes "b"; number = pos 2 }

abbrev page_of : ℕ → Result (List Pull × ℕ)
page_of zero = returns (first_pull ∷ [], 2)
page_of (suc n) = returns (second_pull ∷ [], 0)

abbrev two_pages : Api
two_pages = record {
  Store = Unit;
  add_labels_to_issue = λ o r n l s. ((none, some created_reply), s);
  remove_label_for_issue = λ o r n l s. ((none, some created_reply), s);
  list_comments = λ o r n s. returns [];
  edit_comment = λ o r c b s. ((none, some created_reply), s);
  create_comment = λ o r n b s. ((none, some created_reply), s);
  list_pulls = λ o r h page s. page_of page;
  list_artifacts = λ o r n page s. ((none, some created_reply), []);
}

pull_request_number_lem_example :
    get_workload_run_pull_request_number two_pages
      (pos 0)
      (codes "o")
      (codes "r")
      (codes "main")
      (codes "b")
      2
      tt
    ≡ some (ending number_of none_matches (with_sha (codes "b") (first_pull ∷ second_pull ∷ [])))
pull_request_number_lem_example =
    pull_request_number_lem two_pages (pos 0) (codes "o") (codes "r") (codes "main") (codes "b") tt
      2 2 (first_pull ∷ second_pull ∷ [])
      (inr (first_pull ∷ [], 1, second_pull ∷ [], refl, inl refl, refl)) (omega arith)
