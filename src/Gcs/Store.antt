-- ===== src/Gcs/Store.antt =====
-- The storage service, cloud.google.com/go/storage: the calls that the queue makes of a bucket, and
-- what it relies on. `Bucket` is the bucket's state.
use terraform_cloudrun_glue.Base.{ℕ, ◌≡◌, ◌≢◌, Bool, true, Option, none, some, List, Text, lookup}
use terraform_cloudrun_glue.Gcs.{Attrs, Metadata}

pub data StorageError : Type 0 where
  -- storage.ErrObjectNotExist
  object_not_exist : StorageError
  -- a googleapi.Error with code 412
  precondition_failed : StorageError
  failure : Text → StorageError

pub data Answer (A : Type 0) : Type 0 where
  done : A → Answer A
  failed : StorageError → Answer A

pub record Storage : Type 1 where
  pub Bucket : Type 0
  -- Object(name).If(DoesNotExist).NewWriter with this metadata, Write and Close.
  pub create : Text → Metadata → Bucket → Answer Unit × Bucket
  -- Object(name).Attrs
  pub attrs : Text → Bucket → Answer Attrs
  -- Object(name).Update, where the metageneration must match if one is given.
  pub update : Text → Option ℕ → Metadata → Bucket → Answer Attrs × Bucket
  -- Object(target).CopierFrom(Object(source)) with this metadata, Run; the Boolean says whether the
  -- target must not exist.
  pub copy : Bool → Text → Text → Metadata → Bucket → Answer Attrs × Bucket
  -- Object(name).Delete
  pub delete : Text → Bucket → Answer Unit × Bucket
  -- The objects of the bucket, or the error at which the iteration ends.
  pub list : Bucket → Answer (List Attrs)

-- The documented behaviour, over the objects that a state of the bucket holds. Each call touches its
-- own object only, whatever its outcome; a call that fails otherwise may have taken effect or not.
pub record StorageLaws (st : Storage) : Type 1 where
  pub view : st.Bucket → Text → Option Attrs
  pub create_others :
      (n : Text) (m : Metadata) (b : st.Bucket) (j : Text)
      → n ≢ j
      → view (st.create n m b).1 j ≡ view b j
  pub create_done :
      (n : Text) (m : Metadata) (b : st.Bucket)
      → (st.create n m b).0 ≡ done tt
      → (a : Attrs) × (view (st.create n m b).1 n ≡ some a) × (a.metadata ≡ m)
  pub create_exists :
      (n : Text) (m : Metadata) (b : st.Bucket)
      → (st.create n m b).0 ≡ failed precondition_failed
      → (a : Attrs) × (view b n ≡ some a) × (view (st.create n m b).1 n ≡ some a)
  pub attrs_done :
      (n : Text) (b : st.Bucket) (a : Attrs) → st.attrs n b ≡ done a → view b n ≡ some a
  pub attrs_missing :
      (n : Text) (b : st.Bucket) → st.attrs n b ≡ failed object_not_exist → view b n ≡ none
  pub update_others :
      (n : Text) (g : Option ℕ) (m : Metadata) (b : st.Bucket) (j : Text)
      → n ≢ j
      → view (st.update n g m b).1 j ≡ view b j
  pub update_missing :
      (n : Text) (g : Option ℕ) (m : Metadata) (b : st.Bucket)
      → (st.update n g m b).0 ≡ failed object_not_exist
      → view b n ≡ none
  pub update_done :
      (n : Text) (g : Option ℕ) (m : Metadata) (b : st.Bucket) (a : Attrs)
      → (st.update n g m b).0 ≡ done a
      → (view (st.update n g m b).1 n ≡ some a)
        × ((k v : Text) → lookup k m ≡ some v → lookup k a.metadata ≡ some v)
  pub copy_others :
      (c : Bool) (t s : Text) (m : Metadata) (b : st.Bucket) (j : Text)
      → t ≢ j
      → view (st.copy c t s m b).1 j ≡ view b j
  pub copy_done :
      (c : Bool) (t s : Text) (m : Metadata) (b : st.Bucket) (a : Attrs)
      → (st.copy c t s m b).0 ≡ done a
      → (view (st.copy c t s m b).1 t ≡ some a) × (a.metadata ≡ m) × (a.name ≡ t)
  pub copy_fresh :
      (t s : Text) (m : Metadata) (b : st.Bucket) (a : Attrs)
      → (st.copy true t s m b).0 ≡ done a
      → view b t ≡ none
  pub copy_exists :
      (t s : Text) (m : Metadata) (b : st.Bucket)
      → (st.copy true t s m b).0 ≡ failed precondition_failed
      → (a : Attrs) × (view b t ≡ some a) × (view (st.copy true t s m b).1 t ≡ some a)
  pub delete_others :
      (n : Text) (b : st.Bucket) (j : Text) → n ≢ j → view (st.delete n b).1 j ≡ view b j
  pub delete_done :
      (n : Text) (b : st.Bucket) → (st.delete n b).0 ≡ done tt → view (st.delete n b).1 n ≡ none
