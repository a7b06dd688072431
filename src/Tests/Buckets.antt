-- ===== src/Tests/Buckets.antt =====
-- A bucket in memory, which behaves as the storage service is documented to.
use terraform_cloudrun_glue.Base.{
  ◌≡◌, ◌≢◌, refl, sym, ap, ◌∙◌, Bool, true, false, Option, none, some, map, pos, Text, text_eq,
  text_eq_iff, Dict, lookup, insert, delete, lookup-insert, lookup-delete, lookup-insert_self,
  lookup-delete_self, arith,
}
use terraform_cloudrun_glue.Gcs.{Attrs, Metadata}
use terraform_cloudrun_glue.Gcs.Store.{
  object_not_exist, precondition_failed, Answer, done, failed, Storage, StorageLaws,
}

abbrev made : Text → Metadata → Attrs
made n m = record { name = n; metadata = m; created = pos 0; metageneration = 1 }

abbrev created : Text → Metadata → Dict Attrs → Option Attrs → Answer Unit × Dict Attrs
created n m b none = (done tt, insert n (made n m) b)
created n m b (some a) = (failed precondition_failed, b)

abbrev read : Option Attrs → Answer Attrs
read none = failed object_not_exist
read (some a) = done a

abbrev updated : Text → Metadata → Dict Attrs → Option Attrs → Answer Attrs × Dict Attrs
updated n m b none = (failed object_not_exist, b)
updated n m b (some a) = (done (made n m), insert n (made n m) b)

abbrev copied :
    Bool → Text → Metadata → Dict Attrs → Option Attrs → Option Attrs → Answer Attrs × Dict Attrs
copied c t m b none there = (failed object_not_exist, b)
copied true t m b (some a) (some x) = (failed precondition_failed, b)
copied true t m b (some a) none = (done (made t m), insert t (made t m) b)
copied false t m b (some a) there = (done (made t m), insert t (made t m) b)

abbrev deleted : Text → Dict Attrs → Option Attrs → Answer Unit × Dict Attrs
deleted n b none = (failed object_not_exist, b)
deleted n b (some a) = (done tt, delete n b)

abbrev pub memory : Storage
memory = record {
  Bucket = Dict Attrs;
  create = λ n m b. created n m b (lookup n b);
  attrs = λ n b. read (lookup n b);
  update = λ n g m b. updated n m b (lookup n b);
  copy = λ c t s m b. copied c t m b (lookup s b) (lookup t b);
  delete = λ n b. deleted n b (lookup n b);
  list = λ b. done (map (λ p. p.1) b);
}

other : (n j : Text) → n ≢ j → text_eq n j ≡ false
other n j h = ground (arith, text_eq_iff n j)

insert_others :
    (n j : Text) (a : Attrs) (b : Dict Attrs) → n ≢ j → lookup j (insert n a b) ≡ lookup j b
insert_others n j a b h = rw (lookup-insert j n a b, other n j h) refl

pub created_others :
    (n : Text) (m : Metadata) (b : Dict Attrs) (u : Option Attrs) (j : Text)
    → n ≢ j
    → lookup j (created n m b u).1 ≡ lookup j b
created_others n m b none j h = insert_others n j (made n m) b h
created_others n m b (some a) j h = refl

pub created_done :
    (n : Text) (m : Metadata) (b : Dict Attrs) (u : Option Attrs)
    → (created n m b u).0 ≡ done tt
    → (a : Attrs) × (lookup n (created n m b u).1 ≡ some a) × (a.metadata ≡ m)
created_done n m b none h = (made n m, lookup-insert_self n (made n m) b, refl)
created_done n m b (some a) h = absurd (cc)

pub created_exists :
    (n : Text) (m : Metadata) (b : Dict Attrs) (u : Option Attrs)
    → lookup n b ≡ u
    → (created n m b u).0 ≡ failed precondition_failed
    → (a : Attrs) × (lookup n b ≡ some a) × (lookup n (created n m b u).1 ≡ some a)
created_exists n m b none e h = absurd (cc)
created_exists n m b (some a) e h = (a, e, e)

pub read_done : (u : Option Attrs) (a : Attrs) → read u ≡ done a → u ≡ some a
read_done none a h = absurd (cc)
read_done (some x) a h = cc

pub read_missing : (u : Option Attrs) → read u ≡ failed object_not_exist → u ≡ none
read_missing none h = refl
read_missing (some x) h = absurd (cc)

pub updated_others :
    (n : Text) (m : Metadata) (b : Dict Attrs) (u : Option Attrs) (j : Text)
    → n ≢ j
    → lookup j (updated n m b u).1 ≡ lookup j b
updated_others n m b none j h = refl
updated_others n m b (some a) j h = insert_others n j (made n m) b h

pub updated_missing :
    (n : Text) (m : Metadata) (b : Dict Attrs) (u : Option Attrs)
    → (updated n m b u).0 ≡ failed object_not_exist
    → u ≡ none
updated_missing n m b none h = refl
updated_missing n m b (some a) h = absurd (cc)

done_inj : {a c : Attrs} → done a ≡ done c → a ≡ c
done_inj h = cc

pub updated_done :
    (n : Text) (m : Metadata) (b : Dict Attrs) (u : Option Attrs) (a : Attrs)
    → (updated n m b u).0 ≡ done a
    → (lookup n (updated n m b u).1 ≡ some a)
      × ((k v : Text) → lookup k m ≡ some v → lookup k a.metadata ≡ some v)
updated_done n m b none a h = absurd (cc)
updated_done n m b (some x) a h = (
  lookup-insert_self n (made n m) b ∙ ap some (done_inj h),
  λ k v e. ap (λ x. lookup k x.metadata) (sym (done_inj h)) ∙ e,
)

pub copied_others :
    (c : Bool) (t : Text) (m : Metadata) (b : Dict Attrs) (u v : Option Attrs) (j : Text)
    → t ≢ j
    → lookup j (copied c t m b u v).1 ≡ lookup j b
copied_others c t m b none v j h = refl
copied_others true t m b (some a) (some x) j h = refl
copied_others true t m b (some a) none j h = insert_others t j (made t m) b h
copied_others false t m b (some a) v j h = insert_others t j (made t m) b h

abbrev Copy : Text → Metadata → Dict Attrs → Attrs → Type 0
Copy t m b a = (lookup t b ≡ some a) × (a.metadata ≡ m) × (a.name ≡ t)

made-Copy :
    (t : Text) (m : Metadata) (b : Dict Attrs) (a : Attrs)
    → done (made t m) ≡ done a
    → Copy t m (insert t (made t m) b) a
made-Copy t m b a h = (
  lookup-insert_self t (made t m) b ∙ ap some (done_inj h),
  ap (λ x. x.metadata) (sym (done_inj h)),
  ap (λ x. x.name) (sym (done_inj h)),
)

pub copied_done :
    (c : Bool) (t : Text) (m : Metadata) (b : Dict Attrs) (u v : Option Attrs) (a : Attrs)
    → (copied c t m b u v).0 ≡ done a
    → Copy t m (copied c t m b u v).1 a
copied_done c t m b none v a h = absurd (cc)
copied_done true t m b (some x) (some y) a h = absurd (cc)
copied_done true t m b (some x) none a h = made-Copy t m b a h
copied_done false t m b (some x) v a h = made-Copy t m b a h

pub copied_fresh :
    (t : Text) (m : Metadata) (b : Dict Attrs) (u v : Option Attrs) (a : Attrs)
    → (copied true t m b u v).0 ≡ done a
    → v ≡ none
copied_fresh t m b none v a h = absurd (cc)
copied_fresh t m b (some x) (some y) a h = absurd (cc)
copied_fresh t m b (some x) none a h = refl

pub copied_exists :
    (t : Text) (m : Metadata) (b : Dict Attrs) (u v : Option Attrs)
    → lookup t b ≡ v
    → (copied true t m b u v).0 ≡ failed precondition_failed
    → (a : Attrs) × (lookup t b ≡ some a) × (lookup t (copied true t m b u v).1 ≡ some a)
copied_exists t m b none v e h = absurd (cc)
copied_exists t m b (some x) (some y) e h = (y, e, e)
copied_exists t m b (some x) none e h = absurd (cc)

pub deleted_others :
    (n : Text) (b : Dict Attrs) (u : Option Attrs) (j : Text)
    → n ≢ j
    → lookup j (deleted n b u).1 ≡ lookup j b
deleted_others n b none j h = refl
deleted_others n b (some a) j h = rw (lookup-delete j n b, other n j h) refl

pub deleted_done :
    (n : Text) (b : Dict Attrs) (u : Option Attrs)
    → (deleted n b u).0 ≡ done tt
    → lookup n (deleted n b u).1 ≡ none
deleted_done n b none h = absurd (cc)
deleted_done n b (some a) h = lookup-delete_self n b

abbrev pub memory-StorageLaws : StorageLaws memory
memory-StorageLaws = record {
  view = λ b n. lookup n b;
  create_others = λ n m b j h. created_others n m b (lookup n b) j h;
  create_done = λ n m b h. created_done n m b (lookup n b) h;
  create_exists = λ n m b h. created_exists n m b (lookup n b) refl h;
  attrs_done = λ n b a h. read_done (lookup n b) a h;
  attrs_missing = λ n b h. read_missing (lookup n b) h;
  update_others = λ n g m b j h. updated_others n m b (lookup n b) j h;
  update_missing = λ n g m b h. updated_missing n m b (lookup n b) h;
  update_done = λ n g m b a h. updated_done n m b (lookup n b) a h;
  copy_others = λ c t s m b j h. copied_others c t m b (lookup s b) (lookup t b) j h;
  copy_done = λ c t s m b a h. copied_done c t m b (lookup s b) (lookup t b) a h;
  copy_fresh = λ t s m b a h. copied_fresh t m b (lookup s b) (lookup t b) a h;
  copy_exists = λ t s m b h. copied_exists t m b (lookup s b) (lookup t b) refl h;
  delete_others = λ n b j h. deleted_others n b (lookup n b) j h;
  delete_done = λ n b h. deleted_done n b (lookup n b) h;
}
