-- ===== src/Expiration/Lists.antt =====
-- The doubly linked lists of entries of the buckets in expiration.go. A field of the buckets, and a
-- field of the entries, is a function of the address; the links are shared by all buckets.
pub mod Members
use pacecache.Prelude.{
  ℕ, ◌+◌, ◌-◌, Bool, Option, none, some, Result, ok, panic, ◌>>=◌, ◌==◌, ◌!=◌, ◌&&◌, if◌then◌else◌,
}
use pacecache.Chain.{Ptr, nil, write}
use pacecache.Expiration.Heap.{BucketPtr}

pub record BucketLists : Type 0 where
  pub heads : BucketPtr → Ptr
  pub tails : BucketPtr → Ptr
  pub counts : BucketPtr → ℕ
  pub previous : Ptr → Ptr
  pub next : Ptr → Ptr

abbrev pub no_lists : BucketLists
no_lists = record {
  heads = λ _. nil;
  tails = λ _. nil;
  counts = λ _. 0;
  previous = λ _. nil;
  next = λ _. nil;
}

unfoldable pub contains_only : BucketLists → BucketPtr → Ptr → Bool
contains_only l bucket item =
    (l.counts bucket == 1)
    && (l.heads bucket == item)
    && (l.tails bucket == item)
    && (l.previous item == nil)
    && (l.next item == nil)

unfoldable pub push_back : BucketLists → BucketPtr → Ptr → BucketLists
push_back l bucket item =
    let l1 = record l {
      previous = write l.previous item (l.tails bucket);
      next = write l.next item nil;
    } in
    let l2 =
      if l1.tails bucket != nil
      then record l1 { next = write l1.next (l1.tails bucket) item }
      else record l1 { heads = write l1.heads bucket item } in
    record l2 {
      tails = write l2.tails bucket item;
      counts = write l2.counts bucket (l2.counts bucket + 1);
    }

-- Both links of the entry are read before anything is written.
unfoldable pub remove : BucketLists → BucketPtr → Ptr → Result BucketLists
remove l bucket item =
    if l.counts bucket == 0
    then panic
    else let previous = l.previous item in
      let next = l.next item in
      let l1 =
        if previous != nil
        then record l { next = write l.next previous next }
        else record l { heads = write l.heads bucket next } in
      let l2 =
        if next != nil
        then record l1 { previous = write l1.previous next previous }
        else record l1 { tails = write l1.tails bucket previous } in
      ok (record l2 {
        previous = write l2.previous item nil;
        next = write l2.next item nil;
        counts = write l2.counts bucket (l2.counts bucket - 1);
      })

-- `none` is the nil that an empty bucket returns.
unfoldable pub pop_back : BucketLists → BucketPtr → Result (BucketLists × Option Ptr)
pop_back l bucket =
    let item = l.tails bucket in
    if item == nil then ok (l, none) else do l' ← remove l bucket item; ok (l', some item)

-- What `releaseBucket` makes of a bucket's list.
unfoldable pub blank : BucketLists → BucketPtr → BucketLists
blank l bucket = record l {
  heads = write l.heads bucket nil;
  tails = write l.tails bucket nil;
  counts = write l.counts bucket 0;
}
