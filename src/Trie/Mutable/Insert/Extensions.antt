-- ===== src/Trie/Mutable/Insert/Extensions.antt =====
-- The insertion inspector at an extension, from what the calls that it makes return.
use aion_utils.Prelude.{
  ℕ, ◌<◌, ◌≡◌, ◌≢◌, refl, sym, ◌∙◌, true, false, none, List, ◌==◌, if◌then◌else◌, arith, Bool-cases,
  inl, inr, length, take, drop, ok, All, All-take,
}
use aion_utils.Db.Map.{same}
use aion_utils.Trie.Nibbles.{IsNibble}
use aion_utils.Trie.NibbleSlice.{NibbleSlice, mid}
use aion_utils.Trie.NibbleSlice.Encode.{hex_prefix}
use aion_utils.Trie.NibbleSlice.Compare.{shared}
use aion_utils.Trie.NibbleSlice.Fronts.{
  shared-le, shared_split, shared_whole, same_front, same_front_back,
}
use aion_utils.Trie.NibbleSlice.Own.{
  Views, len-Views, mid-Views, encoded-Views, encoded_leftmost-Views, common_prefix-Views,
}
use aion_utils.Trie.Mutable.{H256, NodeSource, Value}
use aion_utils.Trie.Mutable.Insert.{replace, restore, Inspector, insert_extension}
use aion_utils.Trie.Mutable.Insert.Stubs.{at_start, Forked}
use aion_utils.Trie.Mutable.Shape.{Tree, path, node_of, value_at, IsTrie, IsFork}
use aion_utils.Trie.Mutable.Shape.Forests.{handle_of}
use aion_utils.Trie.Mutable.Shape.Lookup.{key_slice-Views}
use aion_utils.Trie.Mutable.Shape.Reads.{value_at-path}
use aion_utils.Trie.Mutable.Insert.Inserts.{
  Inserts, either_node, front_long, insert_at_lem, path_reads, under_split,
}

module _ (db : NodeSource) (inspector : Inspector) (s : NibbleSlice) (ns : List ℕ) (v : Value)
    (dead : List H256) (vs : Views s ns) (ks : List ℕ) (t : Tree) (hk : All IsNibble ks)
    (long : 0 < length ks) (hf : IsFork t) (ht : IsTrie t) where
  pub off_path : shared ns ks ≢ length ks → value_at (path ks t) ns ≡ none
  unfolding value_at
  off_path h = elim (Bool-cases (same ks (take (length ks) ns))) [
    | inl e ↦ absurd (h (same_front ns ks e))
    | inr e ↦ rw e refl
  ]

  on_path : shared ns ks ≡ length ks → value_at (path ks t) ns ≡ value_at t (drop (shared ns ks) ns)
  unfolding value_at
  on_path h = rw (same_front_back ns ks h, h) refl

  -- A key that goes on into the extension's child.
  pub extension_full :
      shared ns ks ≡ length ks
      → Inserts
          (inspector (node_of t) (mid s (shared ns ks)) v (at_start dead))
          (drop (shared ns ks) ns)
          v
          t
          dead
      → Inserts
          (insert_extension db inspector (hex_prefix ks false) (handle_of t) s v (at_start dead))
          ns
          v
          (path ks t)
          dead
  unfolding insert_extension node_of IsTrie
  extension_full e low =
      let (slice, read, kv) = key_slice-Views ks false hk in
      let (u, changed, run, good) =
        insert_at_lem db inspector t (mid s (shared ns ks)) (drop (shared ns ks) ns) v dead low in
      let full : (shared ns ks == length ks) ≡ true = ground arith in
      let some_shared : (shared ns ks == 0) ≡ false = ground arith in
      (
        path ks u,
        (if changed then replace (node_of (path ks u)) else restore (node_of (path ks u))),
        rw
            (
              read,
              common_prefix-Views s slice ns ks vs kv,
              len-Views slice ks kv,
              some_shared,
              full,
              run,
              encoded-Views slice ks kv false,
              on_path e,
            )
            refl,
        either_node changed (node_of (path ks u)) (node_of (path ks u)) refl,
        record {
          shape = (hk, long, good.forks hf, good.shape);
          forks = λ k. absurd k;
          reads =
              path_reads ks (drop (shared ns ks) ns) ns (value_at t) (path ks t) u v
                (shared_whole ns ks e) (λ k. sym (value_at-path ks t k)) good.reads;
        },
      )

  -- A key that leaves the extension's before its end.
  pub extension_partial :
      (u : Tree)
      → 0 < shared ns ks
      → shared ns ks ≢ length ks
      → inspector
          (node_of (path (drop (shared ns ks) ks) t))
          (mid s (shared ns ks))
          v
          (at_start dead)
        ≡ ok (replace (node_of u), at_start dead)
      → Forked (drop (shared ns ks) ns) v (value_at (path (drop (shared ns ks) ks) t)) u
      → Inserts
          (insert_extension db inspector (hex_prefix ks false) (handle_of t) s v (at_start dead))
          ns
          v
          (path ks t)
          dead
  unfolding insert_extension node_of IsTrie
  extension_partial u pos e run low =
      let (slice, read, kv) = key_slice-Views ks false hk in
      let (le, le') = shared-le ns ks in
      let partly : (shared ns ks == length ks) ≡ false = ground arith in
      let some_shared : (shared ns ks == 0) ≡ false = ground arith in
      let below = mid-Views slice ks kv (shared ns ks) le' in
      (
        path (take (shared ns ks) ks) u,
        replace (node_of (path (take (shared ns ks) ks) u)),
        rw
            (
              read,
              common_prefix-Views s slice ns ks vs kv,
              len-Views slice ks kv,
              some_shared,
              partly,
              encoded-Views (mid slice (shared ns ks)) (drop (shared ns ks) ks) below false,
              run,
              encoded_leftmost-Views slice ks kv (shared ns ks) false,
              off_path e,
            )
            refl,
        refl,
        record {
          shape =
              (All-take IsNibble (shared ns ks) ks hk, front_long ns ks pos, low.forks, low.shape);
          forks = λ k. absurd k;
          reads =
              path_reads (take (shared ns ks) ks) (drop (shared ns ks) ns) ns
                (value_at (path (drop (shared ns ks) ks) t)) (path ks t) u v (shared_split ns ks)
                (λ k.
                  under_split (shared ns ks) ks (value_at t)
                    (value_at (path (drop (shared ns ks) ks) t)) k
                    (value_at-path (drop (shared ns ks) ks) t)
                  ∙ sym (value_at-path ks t k))
                low.reads;
        },
      )
