-- ===== src/Reconciler/Clients.antt =====
-- pkg/githubreconciler/client.go, the cache of clients, and Reconcile of reconciler.go beside it. A
-- token source and the client that is made of it are one parameter, the call that makes them.
pub mod Sharing
use terraform_cloudrun_glue.Base.{
  Option, none, some, List, [], ◌∷◌, ◌++◌, Text, codes, Dict, lookup, insert, Result, returns,
  fails,
}
use terraform_cloudrun_glue.Reconciler.{Resource, parse_url}

unfoldable pub get_key : (org repo : Text) → Text
get_key org repo = org ++ (codes "/" ++ repo)

pub data ReconcileError : Type 0 where
  parsing_url : ReconcileError
  getting_client : Text → ReconcileError
  no_reconciler : ReconcileError
  returned : Text → ReconcileError

unfoldable pub clear : {Client : Type 0} → Dict Client → Dict Client
clear clients = []

-- `W` is what making a token source and the reconciler's function work on.
module _ {Client W : Type 0} where
  abbrev pub cache_made : Text → Result Client × W → Dict Client → Result Client × (Dict Client × W)
  cache_made key (fails e, w) clients = (fails (codes "creating token source: " ++ e), (clients, w))
  cache_made key (returns c, w) clients = (returns c, (insert key c clients, w))

  -- What Get does under the write lock, by what its second look finds.
  abbrev pub create_found :
      Text
      → Option Client
      → (make : W → Result Client × W) → Dict Client
      → W
      → Result Client × (Dict Client × W)
  create_found key (some c) make clients w = (returns c, (clients, w))
  create_found key none make clients w = cache_made key (make w) clients

  unfoldable pub create_client :
      Text → (make : W → Result Client × W) → Dict Client → W → Result Client × (Dict Client × W)
  create_client key make clients w = create_found key (lookup key clients) make clients w

  -- Get without other calls between its two locks.
  unfoldable pub get :
      (Text → Text → W → Result Client × W)
      → (org repo : Text) → Dict Client
      → W
      → Result Client × (Dict Client × W)
  unfolding get_key create_client
  get token org repo clients w = elim (lookup (get_key org repo) clients) [
    | some c ↦ (returns c, (clients, w))
    | none ↦ create_client (get_key org repo) (token org repo) clients w
  ]

  -- Reconcile, and `none` for nil.
  unfoldable pub reconcile :
      (Text → Option (Text × Text))
      → (Text → Text → W → Result Client × W)
      → Option (Resource → Client → W → Result Unit × W)
      → (uri : Text) → Dict Client × W
      → Option ReconcileError × (Dict Client × W)
  unfolding get
  reconcile url_parse token reconciler uri (clients, w) = elim (parse_url url_parse uri) [
    | none ↦ (some parsing_url, (clients, w))
    | some r ↦
        let (answer, (clients1, w1)) = get token r.owner r.repo clients w in
        elim answer [
          | fails e ↦ (some (getting_client e), (clients1, w1))
          | returns c ↦ elim reconciler [
            | none ↦ (some no_reconciler, (clients1, w1))
            | some f ↦
                let (result, w2) = f r c w1 in
                elim result [
                  | fails e ↦ (some (returned e), (clients1, w2))
                  | returns u ↦ (none, (clients1, w2))
                ]
          ]
        ]
  ]
