-- ===== src/Segment/Shape.antt =====
-- The map, the memory and the LRU list of a segment agree on its entries, and each edit of the
-- three that segment.go makes keeps them so.
use pacecache.Prelude.{
  suc, ◌<◌, ◌≡◌, ◌≢◌, inl, inr, sym, ◌∙◌, Option, none, some, ◌∷◌, arith, length, length-erase,
}
use pacecache.Prelude.GoMap
use pacecache.Prelude.GoMap.{GoMap}
use pacecache.Chain.{Ptr, nil, write}
use pacecache.Lru.{Lru, unlink, move_to_front, push_front}
use pacecache.Lru.Order.{InOrder, unlink-InOrder, move_to_front-InOrder, push_front-InOrder}
use pacecache.Segment.{Entry}
use pacecache.Segment.Nodes.{
  Nodes, addresses, Stored, Stored-write, Allocated, erase-Allocated, suc-Allocated, fresh-absent,
  mem-lt, find_node, address_of-found, find_node-key, drop_node, replace_node, address_of,
  KeysDistinct, address_of-find_node, address_of-drop_node, drop_node-KeysDistinct, find_node-mem,
  addresses-drop_node, find_node-Stored, drop_node-Stored,
}
use pacecache.Segment.Nodes.Replace.{
  addresses-replace_node, replace_node-Stored, address_of-replace_node, address_of-rekey,
  replace_node-KeysDistinct,
}

module _ {K V : Type 0} (dec : Discrete K) where
  pub record Shape (entries : GoMap K Ptr) (cells : Ptr → Option (Entry K V)) (fresh : Ptr)
      (lru : Lru) (ps : Nodes K V) : Type 0 where
    pub order : InOrder lru (addresses ps)
    pub stored : Stored cells ps
    pub mapped : (k : K) → entries.at k ≡ address_of dec k ps
    pub counted : entries.len ≡ length (addresses ps)
    pub keys : KeysDistinct dec ps
    pub allocated : Allocated fresh (addresses ps)
    pub positive : 0 < fresh

  module _ {entries : GoMap K Ptr} {cells : Ptr → Option (Entry K V)} {fresh : Ptr} {lru : Lru}
      {ps : Nodes K V} (h : Shape entries cells fresh lru ps) where
    -- A mapped address holds the entry of its key.
    pub mapped-found :
        (k : K) {p : Ptr}
        → entries.at k ≡ some p
        → (c : Entry K V) × (find_node dec k ps ≡ some (p, c)) × (c.key ≡ k) × (cells p ≡ some c)
    mapped-found k {p} e =
        let (c, f, g) = address_of-find_node dec k ps (sym (h.mapped k) ∙ e) in
        (c, f, g, find_node-Stored dec k p c cells ps f h.stored)

    module _ (k : K) (p : Ptr) (c : Entry K V) (found : find_node dec k ps ≡ some (p, c)) where
      pub found-nil : p ≢ nil
      found-nil = ground (arith, h.order.proper, find_node-mem dec k p c ps)

      mapped_at : entries.at k ≡ some p
      mapped_at = h.mapped k ∙ address_of-found dec k p c ps found

      pub length_drop_node : suc (length (addresses (drop_node dec k ps))) ≡ length (addresses ps)
      length_drop_node =
          rw (addresses-drop_node dec k p c ps found h.order.distinct)
            (length-erase p (addresses ps) (find_node-mem dec k p c ps found))

      -- The entry is removed from the map and from the list.
      pub drop-Shape :
          Shape (GoMap.delete dec entries k) cells fresh (unlink lru p) (drop_node dec k ps)
      unfolding GoMap.delete
      drop-Shape = record {
        order =
            rw (addresses-drop_node dec k p c ps found h.order.distinct)
              (unlink-InOrder lru p h.order (find_node-mem dec k p c ps found));
        stored = drop_node-Stored dec k cells ps h.stored;
        mapped = λ j. ground (arith, h.mapped j, address_of-drop_node dec k j ps h.keys);
        counted = ground (arith, mapped_at, length_drop_node, h.counted);
        keys = drop_node-KeysDistinct dec k ps h.keys;
        allocated =
            rw (addresses-drop_node dec k p c ps found h.order.distinct)
              (erase-Allocated fresh p (addresses ps) h.allocated);
        positive = h.positive;
      }

      -- The entry is used.
      pub front-Shape :
          Shape entries cells fresh (move_to_front lru p) ((p, c) ∷ drop_node dec k ps)
      front-Shape = record {
        order =
            rw (addresses-drop_node dec k p c ps found h.order.distinct)
              (move_to_front-InOrder lru p h.order (find_node-mem dec k p c ps found));
        stored = (
          find_node-Stored dec k p c cells ps found h.stored,
          drop_node-Stored dec k cells ps h.stored,
        );
        mapped =
            λ j. ground (arith, h.mapped j, address_of-drop_node dec k j ps h.keys, key, mapped_at);
        counted = ground (arith, length_drop_node, h.counted);
        keys = (
          ground (arith, address_of-drop_node dec k c.key ps h.keys, key),
          drop_node-KeysDistinct dec k ps h.keys,
        );
        allocated = (
          mem-lt fresh p (addresses ps) h.allocated (find_node-mem dec k p c ps found),
          rw (addresses-drop_node dec k p c ps found h.order.distinct)
              (erase-Allocated fresh p (addresses ps) h.allocated),
        );
        positive = h.positive;
      }
        where
          key : c.key ≡ k
          key = find_node-key dec k p c ps found

      module _ (d : Entry K V) where
        -- The entry is written, under its own key.
        pub replace-Shape :
            d.key ≡ k → Shape entries (write cells p (some d)) fresh lru (replace_node dec k d ps)
        replace-Shape key = record {
          order = rw (addresses-replace_node dec k d ps) h.order;
          stored = replace_node-Stored dec k d p c cells ps found h.order.distinct h.stored;
          mapped = λ j. h.mapped j ∙ sym (address_of-replace_node dec k d p c j ps found key);
          counted = rw (addresses-replace_node dec k d ps) h.counted;
          keys = replace_node-KeysDistinct dec k d p c ps found (inl key) h.keys;
          allocated = rw (addresses-replace_node dec k d ps) h.allocated;
          positive = h.positive;
        }

        -- The entry is reused for a new key.
        pub rekey-Shape :
            address_of dec d.key ps ≡ none
            → Shape
                (GoMap.insert dec (GoMap.delete dec entries k) d.key p)
                (write cells p (some d))
                fresh
                lru
                (replace_node dec k d ps)
        unfolding GoMap.insert GoMap.delete
        rekey-Shape new = record {
          order = rw (addresses-replace_node dec k d ps) h.order;
          stored = replace_node-Stored dec k d p c cells ps found h.order.distinct h.stored;
          mapped =
              λ j. ground (arith, h.mapped j, address_of-rekey dec k d p c j ps found new h.keys);
          counted =
              rw (addresses-replace_node dec k d ps)
                (ground (arith, mapped_at, h.mapped d.key, length_drop_node, h.counted));
          keys = replace_node-KeysDistinct dec k d p c ps found (inr new) h.keys;
          allocated = rw (addresses-replace_node dec k d ps) h.allocated;
          positive = h.positive;
        }

    -- A new entry comes first.
    pub push-Shape :
        (d : Entry K V)
        → entries.at d.key ≡ none
        → Shape
            (GoMap.insert dec entries d.key fresh)
            (write cells fresh (some d))
            (suc fresh)
            (push_front lru fresh)
            ((fresh, d) ∷ ps)
    unfolding GoMap.insert
    push-Shape d new = record {
      order =
          push_front-InOrder lru fresh h.order (omega arith)
            (fresh-absent fresh (addresses ps) h.allocated);
      stored = (
        ground arith,
        Stored-write cells fresh (some d) ps h.stored
            (fresh-absent fresh (addresses ps) h.allocated),
      );
      mapped = λ j. ground (arith, h.mapped j);
      counted = ground (arith, h.counted);
      keys = (sym (h.mapped d.key) ∙ new, h.keys);
      allocated = (omega arith, suc-Allocated fresh (addresses ps) h.allocated);
      positive = omega arith;
    }
