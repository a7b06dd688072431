-- ===== src/Reconciler.antt =====
-- pkg/githubreconciler/parser.go: the parser of the links to issues and pull requests. url.Parse is
-- a parameter, of which the host and the path are read.
pub mod Parsing
pub mod Comments
pub mod Clients
use terraform_cloudrun_glue.Base.{
  ℕ, Bool, true, false, not, Option, none, some, List, [], ◌∷◌, if◌then◌else◌, ℤ, Text, codes,
  text_eq, parse_int, ◌==◌,
}

pub data ResourceType : Type 0 where
  issue : ResourceType
  pull_request : ResourceType

pub record Resource : Type 0 where
  pub owner : Text
  pub repo : Text
  pub number : ℤ
  pub type : ResourceType
  pub url : Text

abbrev pub slash : ℕ
slash = b'/'

-- strings.Trim with the one byte.
unfoldable pub trim_left : ℕ → Text → Text
trim_left c [] = []
trim_left c (x ∷ s) = let rest = trim_left c s in if x == c then rest else x ∷ s

abbrev pub keep_last : ℕ → ℕ → Text → Text
keep_last c x [] = if x == c then [] else x ∷ []
keep_last c x (y ∷ s) = x ∷ y ∷ s

unfoldable pub trim_right : ℕ → Text → Text
trim_right c [] = []
trim_right c (x ∷ s) = keep_last c x (trim_right c s)

-- strings.Split at the one byte.
abbrev pub push : ℕ → List Text → List Text
push x [] = (x ∷ []) ∷ []
push x (p ∷ ps) = (x ∷ p) ∷ ps

unfoldable pub split : ℕ → Text → List Text
split c [] = [] ∷ []
split c (x ∷ s) = let rest = split c s in if x == c then [] ∷ rest else push x rest

unfoldable pub resource_type : Text → Option ResourceType
unfolding text_eq
resource_type kind =
    if text_eq kind (codes "issues")
    then some issue
    else if text_eq kind (codes "pull")
    then some pull_request
    else none

-- What ParseURL makes of the components of the path.
unfoldable pub resource_of : Text → List Text → Option Resource
unfolding resource_type parse_int
resource_of uri (owner ∷ repo ∷ kind ∷ number ∷ []) =
    let (n, fine) = parse_int number in
    if not fine then none else elim (resource_type kind) [
      | none ↦ none
      | some t ↦ some (record { owner = owner; repo = repo; number = n; type = t; url = uri })
    ]
resource_of uri _ = none

module _ (url_parse : Text → Option (Text × Text)) where
  unfoldable pub parse_url : Text → Option Resource
  unfolding split trim_left trim_right resource_of
  parse_url uri = elim (url_parse uri) [
    | none ↦ none
    | some (host, path) ↦
        if not (text_eq host (codes "github.com"))
        then none
        else resource_of uri (split slash (trim_right slash (trim_left slash path)))
  ]
