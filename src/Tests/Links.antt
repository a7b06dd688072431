-- ===== src/Tests/Links.antt =====
-- The parser of links at a concrete input.
use terraform_cloudrun_glue.Base.{
  ◌≡◌, refl, Option, none, some, pos, Text, codes, text_eq, if◌then◌else◌, arith,
}
use terraform_cloudrun_glue.Reconciler.{pull_request, parse_url}
use terraform_cloudrun_glue.Reconciler.Parsing.{path_of, kind_of, parse_url-path_of}

abbrev link : Text
link = codes "https://github.com/o/r/pull/12"

-- A parser of this one link.
abbrev parse_link : Text → Option (Text × Text)
parse_link uri =
    if text_eq uri link
    then some (codes "github.com", path_of (codes "o") (codes "r") (kind_of pull_request) 12)
    else none

parse_link-link :
    parse_link link
    ≡ some (codes "github.com", path_of (codes "o") (codes "r") (kind_of pull_request) 12)
unfolding text_eq
parse_link-link = refl

parse_url-path_of_example :
    parse_url parse_link link
    ≡ some (record {
      owner = codes "o";
      repo = codes "r";
      number = pos 12;
      type = pull_request;
      url = link;
    })
parse_url-path_of_example =
    parse_url-path_of parse_link link (codes "o") (codes "r") pull_request 12
      ((λ h. cc), (refl, tt)) ((λ h. cc), (refl, tt)) (omega arith) parse_link-link
