-- ===== src/CheckRun.antt =====
-- modules/github-bots/sdk/check/check.go: the builder of a check run's output. A fmt.Sprintf of
-- the caller's format and arguments is the text it gives.
pub mod Limit
use terraform_cloudrun_glue.Base.{
  ℕ, ◌-◌, ◌≡◌, Bool, true, false, Option, none, some, List, [], ◌∷◌, ◌++◌, if◌then◌else◌, Text,
  codes, text_eq, take, length, leb, ltb,
}

abbrev pub max_check_output_length : ℕ
max_check_output_length = 65536

-- In UTF-8, with the warning sign and its variation selector as six bytes.
abbrev pub truncation_message : Text
truncation_message =
    10 ∷ 10 ∷ 226 ∷ 154 ∷ 160 ∷ 239 ∷ 184 ∷ 143 ∷ codes " _Summary has been truncated_"

pub record Builder : Type 0 where
  pub md : Text
  pub name : Text
  pub head_sha : Text
  pub summary : Text
  pub status : Text
  pub conclusion : Text

unfoldable pub new_builder : Text → Text → Builder
new_builder name head_sha = record {
  md = [];
  name = name;
  head_sha = head_sha;
  summary = [];
  status = [];
  conclusion = [];
}

-- A line appended to a text that is not over the limit.
abbrev pub append_to : ℕ → Text → Text → Text
append_to limit line md = if leb (length md) limit then md ++ (line ++ 10 ∷ []) else md

-- A text over the limit, cut to end in the message.
abbrev pub truncate_to : ℕ → Text → Text → Text
truncate_to limit message md =
    if ltb limit (length md) then take (limit - length message) md ++ message else md

unfoldable pub writef : Text → Builder → Builder
writef line b = record b {
  md =
      truncate_to max_check_output_length truncation_message
        (append_to max_check_output_length line b.md);
}

pub record CheckRunOutput : Type 0 where
  pub title : Text
  pub summary : Text
  pub text : Text

pub record CreateCheckRunOptions : Type 0 where
  pub name : Text
  pub head_sha : Text
  pub status : Text
  pub conclusion : Option Text
  pub output : CheckRunOutput

pub record UpdateCheckRunOptions : Type 0 where
  pub name : Text
  pub status : Text
  pub conclusion : Option Text
  pub output : CheckRunOutput

abbrev pub status_in_progress : Text
status_in_progress = codes "in_progress"

abbrev pub status_completed : Text
status_completed = codes "completed"

abbrev pub titled : Builder → Builder
titled b = record b { summary = if text_eq b.summary [] then b.name else b.summary }

-- The options and the builder, whose summary is filled in. Title and Summary of the output are
-- pointers to that summary; they are read here when the options are built.
unfoldable pub check_run_create : Builder → CreateCheckRunOptions × Builder
check_run_create b0 =
    let b = titled b0 in
    (
      record {
        name = b.name;
        head_sha = b.head_sha;
        status = if text_eq b.conclusion [] then status_in_progress else status_completed;
        conclusion = if text_eq b.conclusion [] then none else some b.conclusion;
        output = record { title = b.summary; summary = b.summary; text = b.md };
      },
      b,
    )

unfoldable pub check_run_update : Builder → UpdateCheckRunOptions × Builder
unfolding check_run_create
check_run_update b =
    let (create, b') = check_run_create b in
    (
      record {
        name = create.name;
        status = create.status;
        conclusion = create.conclusion;
        output = record {
          title = create.output.title;
          summary = create.output.summary;
          text = create.output.text;
        };
      },
      b',
    )
