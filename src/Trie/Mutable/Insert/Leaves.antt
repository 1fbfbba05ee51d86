-- ===== src/Trie/Mutable/Insert/Leaves.antt =====
-- The insertion inspector at a leaf, from what the call that it makes returns.
use aion_utils.Prelude.{
  ℕ, ◌<◌, ◌≡◌, ◌≢◌, refl, ap, sym, ◌∙◌, Bool, true, false, ◌&&◌, none, some, List, ◌==◌,
  if◌then◌else◌, arith, Bool-cases, inl, inr, length, take, drop, ok, ==_iff, All, All-take,
}
use aion_utils.Db.Map.{same, same_refl, same→eq}
use aion_utils.Trie.Nibbles.{IsNibble}
use aion_utils.Trie.NibbleSlice.{NibbleSlice, mid}
use aion_utils.Trie.NibbleSlice.Encode.{hex_prefix}
use aion_utils.Trie.NibbleSlice.Compare.{shared}
use aion_utils.Trie.NibbleSlice.Fronts.{
  shared-le, shared_all, shared_split, shared_whole, shared_self,
}
use aion_utils.Trie.NibbleSlice.Own.{
  Views, len-Views, mid-Views, encoded-Views, encoded_leftmost-Views, common_prefix-Views,
}
use aion_utils.Trie.Mutable.{H256, Value, Node}
use aion_utils.Trie.Mutable.Insert.{replace, restore, unwrap_node, Inspector, insert_leaf}
use aion_utils.Trie.Mutable.Insert.Stubs.{at_start, Forked}
use aion_utils.Trie.Mutable.Shape.{Tree, tip, path, fork, node_of, value_at, IsTrie}
use aion_utils.Trie.Mutable.Shape.Forests.{gaps, vacancies-gaps}
use aion_utils.Trie.Mutable.Shape.Lookup.{key_slice-Views}
use aion_utils.Trie.Mutable.Shape.Reads.{only, value_at-tip, under_ext, value_at-stub, same_comm}
use aion_utils.Trie.Mutable.Insert.Inserts.{Inserts, front_long, path_reads, under_split}

module _ (inspector : Inspector) (s : NibbleSlice) (ns : List ℕ) (v : Value) (dead : List H256)
    (vs : Views s ns) (ks : List ℕ) (w : Value) (hk : All IsNibble ks) where
  -- The leaf of the key itself.
  pub leaf_here :
      shared ns ks ≡ length ks
      → shared ns ks ≡ length ns
      → Inserts
          (insert_leaf inspector (hex_prefix ks true) w s v (at_start dead))
          ns
          v
          (tip ks w)
          dead
  unfolding insert_leaf node_of value_at IsTrie
  leaf_here e f =
      let (slice, read, kv) = key_slice-Views ks true hk in
      let eq : ns ≡ ks = shared_all ns ks e f in
      let same_size : length ks ≡ length ns = ap length (sym eq) in
      let full : (shared ns ks == length ks) ≡ true = (==_iff _ _).1 e in
      let full' : (shared ns ks == length ns) ≡ true = (==_iff _ _).1 f in
      let hit : same ks ns ≡ true = ap (same ks) eq ∙ same_refl ks in
      let n = leaf_node v in
      (
        tip ks v,
        (if same w v then restore n else replace n),
        rw
            (
              read,
              common_prefix-Views s slice ns ks vs kv,
              len-Views slice ks kv,
              len-Views s ns vs,
              full,
              full',
              hit,
            )
            refl,
        chosen (same w v),
        record { shape = hk; forks = λ f. f; reads = λ k. reads_at k eq },
      )
    where
      leaf_node : Value → Node
      leaf_node x = Node.leaf (hex_prefix ks true) x

      chosen :
          (b : Bool)
          → unwrap_node (if b then restore (leaf_node v) else replace (leaf_node v)) ≡ leaf_node v
      chosen true = refl
      chosen false = refl

      reads_at :
          (k : List ℕ)
          → ns ≡ ks
          → (if same ks k then some v else none)
            ≡ (if same k ns then some v else (if same ks k then some w else none))
      reads_at k eq =
          let turned : same k ns ≡ same ks k = ap (same k) eq ∙ same_comm k ks in
          elim (Bool-cases (same ks k)) [
            | inl h ↦ rw (turned, h) refl
            | inr h ↦ rw (turned, h) refl
          ]

  -- Another key than the leaf's.
  pub other_key : shared ns ks ≢ length ks → value_at (tip ks w) ns ≡ none
  unfolding value_at
  other_key h = elim (Bool-cases (same ks ns)) [
    | inl e ↦
        let eq = same→eq ks ns e in absurd (h (ap (λ a. shared a ks) (sym eq) ∙ shared_self ks))
    | inr e ↦ rw e refl
  ]

  pub longer_key : shared ns ks ≢ length ns → value_at (tip ks w) ns ≡ none
  unfolding value_at
  longer_key h = elim (Bool-cases (same ks ns)) [
    | inl e ↦ let eq = same→eq ks ns e in absurd (h (ap (shared ns) eq ∙ shared_self ns))
    | inr e ↦ rw e refl
  ]

  -- A key that goes on behind the leaf's.
  pub leaf_full :
      (u : Tree)
      → shared ns ks ≡ length ks
      → shared ns ks ≢ length ns
      → 0 < length ks
      → inspector (node_of (fork (gaps 16) (some w))) (mid s (shared ns ks)) v (at_start dead)
        ≡ ok (replace (node_of u), at_start dead)
      → Forked (drop (shared ns ks) ns) v (value_at (fork (gaps 16) (some w))) u
      → Inserts
          (insert_leaf inspector (hex_prefix ks true) w s v (at_start dead))
          ns
          v
          (tip ks w)
          dead
  unfolding insert_leaf node_of IsTrie
  leaf_full u e f long run low =
      let (slice, read, kv) = key_slice-Views ks true hk in
      let other : ((shared ns ks == length ks) && (shared ns ks == length ns)) ≡ false =
        ground arith in
      let full : (shared ns ks == length ks) ≡ true = ground arith in
      let some_shared : (shared ns ks == 0) ≡ false = ground arith in
      (
        path ks u,
        replace (node_of (path ks u)),
        rw
            (
              read,
              common_prefix-Views s slice ns ks vs kv,
              len-Views slice ks kv,
              len-Views s ns vs,
              other,
              some_shared,
              full,
              vacancies-gaps 16,
              run,
              encoded-Views slice ks kv false,
              longer_key f,
            )
            refl,
        refl,
        record {
          shape = (hk, long, low.forks, low.shape);
          forks = λ k. absurd k;
          reads =
              path_reads ks (drop (shared ns ks) ns) ns (value_at (fork (gaps 16) (some w)))
                (tip ks w) u v (shared_whole ns ks e)
                (λ k.
                  under_ext ks (value_at (fork (gaps 16) (some w))) (only w) k (value_at-stub w)
                  ∙ sym (value_at-tip ks w k))
                low.reads;
        },
      )

  -- A key that leaves the leaf's before its end.
  pub leaf_partial :
      (u : Tree)
      → 0 < shared ns ks
      → shared ns ks ≢ length ks
      → inspector
          (node_of (tip (drop (shared ns ks) ks) w))
          (mid s (shared ns ks))
          v
          (at_start dead)
        ≡ ok (replace (node_of u), at_start dead)
      → Forked (drop (shared ns ks) ns) v (value_at (tip (drop (shared ns ks) ks) w)) u
      → Inserts
          (insert_leaf inspector (hex_prefix ks true) w s v (at_start dead))
          ns
          v
          (tip ks w)
          dead
  unfolding insert_leaf node_of IsTrie
  leaf_partial u pos e run low =
      let (slice, read, kv) = key_slice-Views ks true hk in
      let (le, le') = shared-le ns ks in
      let other : ((shared ns ks == length ks) && (shared ns ks == length ns)) ≡ false =
        ground arith in
      let partly : (shared ns ks == length ks) ≡ false = ground arith in
      let some_shared : (shared ns ks == 0) ≡ false = ground arith in
      let below = mid-Views slice ks kv (shared ns ks) le' in
      (
        path (take (shared ns ks) ks) u,
        replace (node_of (path (take (shared ns ks) ks) u)),
        rw
            (
              read,
              common_prefix-Views s slice ns ks vs kv,
              len-Views slice ks kv,
              len-Views s ns vs,
              other,
              some_shared,
              partly,
              encoded-Views (mid slice (shared ns ks)) (drop (shared ns ks) ks) below true,
              run,
              encoded_leftmost-Views slice ks kv (shared ns ks) false,
              other_key e,
            )
            refl,
        refl,
        record {
          shape =
              (All-take IsNibble (shared ns ks) ks hk, front_long ns ks pos, low.forks, low.shape);
          forks = λ k. absurd k;
          reads =
              path_reads (take (shared ns ks) ks) (drop (shared ns ks) ns) ns
                (value_at (tip (drop (shared ns ks) ks) w)) (tip ks w) u v (shared_split ns ks)
                (λ k.
                  under_split (shared ns ks) ks (only w) (value_at (tip (drop (shared ns ks) ks) w))
                    k (value_at-tip (drop (shared ns ks) ks) w)
                  ∙ sym (value_at-tip ks w k))
                low.reads;
        },
      )
