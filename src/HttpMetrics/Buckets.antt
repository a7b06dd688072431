-- ===== src/HttpMetrics/Buckets.antt =====
-- The values that the labels and the gauges take.
use terraform_cloudrun_glue.Base.{
  ◌≡◌, refl, sym, ap, ◌∙◌, Bool, true, false, Option, none, some, List, [], ◌∷◌, ◌++◌,
  if◌then◌else◌, inl, inr, Bool-cases, Memᴰ, pos, Text, codes, text_eq, Dict, lookup, has_suffix,
  has_prefix, parse_int, index, take,
}
use mathlib.Core.List.Memᴰ
use terraform_cloudrun_glue.HttpMetrics.{
  Config, suffix_bucket, bucketize, cut_before, cut_value, docker_value, docker_gauges, docker_set,
  get_header, pick,
}

abbrev pub values : Dict Text → List Text
values [] = []
values ((k, v) ∷ m) = v ∷ values m

lookup-values : (k v : Text) (m : Dict Text) → lookup k m ≡ some v → Memᴰ v (values m)
unfolding lookup
lookup-values k v [] e = absurd (cc)
lookup-values k v ((j, u) ∷ m) e = elim (Bool-cases (text_eq j k)) [
  | inl t ↦ let same : some u ≡ some v = rw t at e in Memᴰ.head (sym (cc))
  | inr t ↦ Memᴰ.tail (lookup-values k v m (rw t at e))
]

suffix_bucket-values :
    (host v : Text) (m : Dict Text) → suffix_bucket host m ≡ some v → Memᴰ v (values m)
unfolding suffix_bucket
suffix_bucket-values host v [] e = absurd (cc)
suffix_bucket-values host v ((k, u) ∷ m) e = elim (Bool-cases (has_suffix host (codes "." ++ k))) [
  | inl t ↦ let same : some u ≡ some v = rw t at e in Memᴰ.head (sym (cc))
  | inr t ↦ Memᴰ.tail (suffix_bucket-values host v m (rw t at e))
]

Memᴰ-append_left : {A : Type 0} (x : A) (a b : List A) → Memᴰ x a → Memᴰ x (a ++ b)
Memᴰ-append_left x [] b m = absurd (Memᴰ.not-nil m)
Memᴰ-append_left x (y ∷ a) b (Memᴰ.head e) = Memᴰ.head e
Memᴰ-append_left x (y ∷ a) b (Memᴰ.tail m) = Memᴰ.tail (Memᴰ-append_left x a b m)

Memᴰ-append_right : {A : Type 0} (x : A) (a b : List A) → Memᴰ x b → Memᴰ x (a ++ b)
Memᴰ-append_right x [] b m = m
Memᴰ-append_right x (y ∷ a) b m = Memᴰ.tail (Memᴰ-append_right x a b m)

-- The labels that the host of a request can get.
abbrev pub host_labels : Config → List Text
host_labels cfg =
    codes "unbucketized" ∷ codes "other" ∷ (values cfg.buckets ++ values cfg.bucket_suffixes)

-- Whatever host a request names, its label is one of the buckets' labels that are configured, or
-- "other", or "unbucketized": the metrics have a bounded number of series.
pub bucketize-host_labels :
    (cfg : Config) (host : Text) → Memᴰ (bucketize cfg host) (host_labels cfg)
unfolding bucketize
bucketize-host_labels cfg host = gate cfg.skip_bucketize (Memᴰ.head refl) (
    gate _ (Memᴰ.tail (Memᴰ.head refl)) (
      picked (lookup host cfg.buckets) (suffix_bucket host cfg.bucket_suffixes)
        (λ v e. Memᴰ.tail (Memᴰ.tail (Memᴰ-append_left v _ _ (lookup-values host v cfg.buckets e))))
        (λ v e. Memᴰ.tail (
          Memᴰ.tail
            (Memᴰ-append_right v _ _ (suffix_bucket-values host v cfg.bucket_suffixes e))))))
  where
    gate :
        {L : List Text} {x y : Text} (b : Bool) → Memᴰ x L → Memᴰ y L → Memᴰ (if b then x else y) L
    gate true m n = m
    gate false m n = n

    picked :
        (o o' : Option Text)
        → ((v : Text) → o ≡ some v → Memᴰ v (host_labels cfg))
        → ((v : Text) → o' ≡ some v → Memᴰ v (host_labels cfg))
        → Memᴰ (pick o o') (host_labels cfg)
    picked (some v) o' f g = f v refl
    picked none (some v) f g = g v refl
    picked none none f g = Memᴰ.tail (Memᴰ.head refl)

-- The values that the Docker rate limits are read as are always 0, whatever the headers say.
docker_value-zero : (v : Text) → docker_value v ≡ pos 0
unfolding docker_value cut_before index has_prefix
docker_value-zero [] = refl
docker_value-zero (c ∷ v) = by_test _
  where
    by_test :
        (b : Bool)
        → cut_value (elim (if b then some 0 else none) [
          | none ↦ (codes ";", false)
          | some i ↦ (take i (codes ";"), true)
        ])
          ≡ pos 0
    by_test true = unfold parse_int in refl
    by_test false = refl

-- No Docker gauge is ever set, whatever the headers of the response are.
pub docker_gauges-never : (h : Dict Text) → docker_gauges h ≡ []
unfolding docker_gauges
docker_gauges-never h =
    ap (λ n. docker_set n (docker_value (get_header (codes "RateLimit-Limit") h)))
      (docker_value-zero (get_header (codes "RateLimit-Remaining") h))
    ∙ ap (docker_set (pos 0)) (docker_value-zero (get_header (codes "RateLimit-Limit") h))
