-- ===== src/Lru.antt =====
-- The exact LRU list of a storage segment: head, tail and the `previous` and `next` fields of the
-- entries in segment.go. A field of the entries is a function of the entry's address.
pub mod Order
use pacecache.Prelude.{◌≡◌, Bool, ◌==◌, ◌!=◌, if◌then◌else◌}
use pacecache.Chain.{Ptr, nil, write}

pub record Lru : Type 0 where
  pub head : Ptr
  pub tail : Ptr
  pub previous : Ptr → Ptr
  pub next : Ptr → Ptr

abbrev pub no_links : Lru
no_links = record { head = nil; tail = nil; previous = λ _. nil; next = λ _. nil }

unfoldable pub push_front : Lru → Ptr → Lru
push_front l item =
    let l1 = record l { previous = write l.previous item nil; next = write l.next item l.head } in
    let l2 =
      if l1.head != nil
      then record l1 { previous = write l1.previous l1.head item }
      else record l1 { tail = item } in
    record l2 { head = item }

unfoldable pub unlink : Lru → Ptr → Lru
unlink l item =
    let l1 =
      if l.previous item != nil
      then record l { next = write l.next (l.previous item) (l.next item) }
      else record l { head = l.next item } in
    let l2 =
      if l1.next item != nil
      then record l1 { previous = write l1.previous (l1.next item) (l1.previous item) }
      else record l1 { tail = l1.previous item } in
    record l2 { previous = write l2.previous item nil; next = write l2.next item nil }

unfoldable pub move_to_front : Lru → Ptr → Lru
unfolding push_front unlink
move_to_front l item = if l.head == item then l else push_front (unlink l item) item
