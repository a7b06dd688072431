-- ===== src/Tests/Comments.antt =====
-- GitHub's comments in memory, and the state of a reconciler kept there.
use terraform_cloudrun_glue.Base.{
  ℕ, zero, suc, ◌+◌, ◌≡◌, refl, sym, ap, ◌∙◌, false, some, List, [], ◌∷◌, ◌++◌, map, inl, inr, pos,
  Text, Result, codes, contains, returns, format_int, arith,
}
use terraform_cloudrun_glue.Reconciler.{Resource, issue}
use terraform_cloudrun_glue.Reconciler.Comments.{
  Packages, State, get_state_marker, build_bot_info_block, build_comment_content,
}
use terraform_cloudrun_glue.Reconciler.Comments.Calls.{Issues, Comment, fetch, commit}
use terraform_cloudrun_glue.Reconciler.Comments.Extract.{IsReadable}
use terraform_cloudrun_glue.Reconciler.Comments.Pages.{Listing}
use terraform_cloudrun_glue.Reconciler.Comments.Writing.{Writes, commit-Writes}
use terraform_cloudrun_glue.Reconciler.Comments.Commits.{
  edited, IssuesLaws, fetch-commit, commit-commit,
}

-- A state is a text, kept as it is, and nothing is escaped in a query.
abbrev packages : Packages
packages = record {
  Value = Text;
  marshal_indent = λ v. returns v;
  unmarshal = λ t. returns t;
  query_escape = λ t. t;
}

-- The comments of one issue, on one page.
abbrev comments : Issues
comments = record {
  Store = List Comment;
  list_comments = λ owner repo number page store. returns (store, 0);
  edit_comment = λ owner repo id body store. (returns tt, map (edited id body) store);
  create_comment = λ owner repo number body store.
      (returns tt, store ++ record { id = pos 7; body = some body } ∷ []);
}

all_listed :
    (r : Resource) (store : List Comment) (n page : ℕ) (cs : List Comment)
    → Listing comments r store n page cs
    → cs ≡ store
all_listed r store zero page cs l = absurd l
all_listed r store (suc n) page cs (inl e) = cc
all_listed r store (suc n) page cs (inr (here, next, rest, e, l, same)) = absurd (cc)

comments_laws : IssuesLaws comments
comments_laws = record {
  edit_done = λ r id body store store' n cs l e. (
    1,
    inl (
        ap (λ s. returns (s, 0))
          (sym (ap (λ x. x.1) e) ∙ ap (map (edited id body)) (sym (all_listed r store n 0 cs l)))),
  );
  create_done = λ r body store store' n cs l e. (
    1,
    pos 7,
    inl (
        ap (λ s. returns (s, 0))
          (sym (ap (λ x. x.1) e)
            ∙ ap (λ s. s ++ record { id = pos 7; body = some body } ∷ [])
                (sym (all_listed r store n 0 cs l)))),
  );
}

abbrev resource : Resource
resource = record {
  owner = codes "o";
  repo = codes "r";
  number = pos 3;
  type = issue;
  url = codes "u";
}

abbrev bot : State
bot = record {
  identity = codes "bot";
  resource = resource;
  project_id = codes "p";
  service_name = codes "s";
}

-- The line on this bot.
abbrev info : Text
info = build_bot_info_block packages bot

info-unmarked : contains info (get_state_marker bot) ≡ false
unfolding contains build_bot_info_block get_state_marker format_int
info-unmarked = refl

done-unmarked : contains (codes "done") (get_state_marker bot) ≡ false
unfolding contains get_state_marker
done-unmarked = refl

readable : IsReadable packages bot (codes "[1]") (codes "done")
readable = record {
  one_line = (refl, (refl, (refl, tt)));
  info_lacks = info-unmarked;
  message_lacks = done-unmarked;
  escaped = (refl, (refl, (refl, tt)));
  tight = (refl, refl);
}

-- A comment of somebody else.
abbrev others : List Comment
others = record { id = pos 1; body = some (codes "hello") } ∷ []

abbrev content : Text
content = build_comment_content packages bot (codes "[1]") (codes "done")

abbrev committed : List Comment
committed = others ++ record { id = pos 7; body = some content } ∷ []

others-committed :
    commit packages comments bot 1 (codes "[1]") (codes "done") others
    ≡ some (returns tt, committed)
unfolding commit contains
others-committed = refl

commit-Writes_example :
    (out : Result Unit × List Comment) × (commit packages comments bot 1
        (codes "[1]")
        (codes "done")
        others
      ≡ some out)
    × Writes packages comments bot content others others out
commit-Writes_example =
    commit-Writes packages comments bot others (codes "[1]") (codes "[1]") (codes "done") 1 1 others
      refl (inl refl) (omega arith)

fetch-commit_example :
    (m : ℕ) × ((k : ℕ)
      → fetch packages comments bot (m + k) committed ≡ some (returns (some (codes "[1]"))))
fetch-commit_example =
    fetch-commit packages comments comments_laws bot (codes "[1]") (codes "[1]") (codes "done")
      others committed 1 1 others refl refl readable (inl refl) (omega arith) others-committed

commit-commit_example :
    (m : ℕ) × ((k : ℕ)
      → commit packages comments bot (m + k) (codes "[1]") (codes "done") committed
        ≡ some (returns tt, committed))
commit-commit_example =
    commit-commit packages comments comments_laws bot (codes "[1]") (codes "[1]") (codes "done")
      others committed 1 1 others refl (inl refl) (omega arith) others-committed
