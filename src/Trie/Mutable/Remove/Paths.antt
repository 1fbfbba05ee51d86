-- ===== src/Trie/Mutable/Remove/Paths.antt =====
-- The removal inspector at a leaf and at an extension, from what the call that it makes returns.
use aion_utils.Prelude.{
  ℕ, suc, ◌<◌, ◌≡◌, refl, ap, sym, ◌∙◌, true, false, none, List, ◌==◌, if◌then◌else◌, Bool-cases,
  inl, inr, length, take, drop, ok, ==_iff, All,
}
use aion_utils.Db.Map.{same, same→eq}
use aion_utils.Trie.Nibbles.{IsNibble}
use aion_utils.Trie.NibbleSlice.{NibbleSlice, mid}
use aion_utils.Trie.NibbleSlice.Encode.{hex_prefix}
use aion_utils.Trie.NibbleSlice.Compare.{shared}
use aion_utils.Trie.NibbleSlice.Fronts.{shared_whole, shared_comm, same_front, same_front_back}
use aion_utils.Trie.NibbleSlice.Own.{Views, len-Views, common_prefix-Views, eq-Views}
use aion_utils.Trie.Mutable.{H256, NodeSource, Value}
use aion_utils.Trie.Mutable.Remove.{Inspector, remove_at, remove_leaf, remove_extension}
use aion_utils.Trie.Mutable.Remove.Fix.{fix_path}
use aion_utils.Trie.Mutable.Insert.Stubs.{at_start}
use aion_utils.Trie.Mutable.Shape.{Tree, tip, path, node_of, value_at, IsTrie, IsFork}
use aion_utils.Trie.Mutable.Shape.Forests.{handle_of}
use aion_utils.Trie.Mutable.Shape.Lookup.{key_slice-Views}
use aion_utils.Trie.Mutable.Shape.Reads.{
  under, unset_at, value_at-path, under_ext, under-unset_at, left_alone, unset_at-tip,
}
use aion_utils.Trie.Mutable.Remove.Removes.{
  Removes, RemovesAt, Without, changed, ended, gone, replaced, restored, unchanged,
}

module _ (s : NibbleSlice) (ns : List ℕ) (dead : List H256) (vs : Views s ns) where
  pub remove_tip :
      (ks : List ℕ) (w : Value)
      → All IsNibble ks
      → Removes (remove_leaf (hex_prefix ks true) w s (at_start dead)) ns (tip ks w) dead
  unfolding remove_leaf node_of value_at IsTrie
  remove_tip ks w hk =
      let (slice, read, kv) = key_slice-Views ks true hk in
      elim (Bool-cases (same ks ns)) [
        | inl e ↦
            gone (rw (read, eq-Views slice s ks ns kv vs, e) refl)
              (λ k. unset_at-tip ks ns w k (same→eq ks ns e)) (λ f. f)
        | inr e ↦
            restored (tip ks w) (rw (read, eq-Views slice s ks ns kv vs, e) refl) hk (λ f. f)
              (left_alone ns (value_at (tip ks w)) (rw e refl))
      ]

module _ (db : NodeSource) (fuel : ℕ) (inspector : Inspector) (s : NibbleSlice) (ns : List ℕ)
    (dead : List H256) (vs : Views s ns) (ks : List ℕ) (t : Tree) (hk : All IsNibble ks)
    (long : 0 < length ks) (hf : IsFork t) (ht : IsTrie t) where
  path-Without :
      (u : Tree)
      → shared ns ks ≡ length ks
      → Without (drop (shared ns ks) ns) t u
      → Without ns (path ks t) (path ks u)
  path-Without u e reads k =
      value_at-path ks u k
      ∙ under_ext ks (value_at u) (unset_at (drop (shared ns ks) ns) (value_at t)) k reads
      ∙ under-unset_at ks (drop (shared ns ks) ns) (value_at t) k
      ∙ ap (λ n. unset_at n (under ks (value_at t)) k) (shared_whole ns ks e)
      ∙ ap (λ m. if same k ns then none else m) (sym (value_at-path ks t k))

  pub remove_path :
      (shared ns ks ≡ length ks
        → RemovesAt
            (remove_at db inspector (handle_of t) (mid s (shared ns ks)) (at_start dead))
            (drop (shared ns ks) ns)
            t
            dead)
      → Removes
          (remove_extension db
            (suc (suc fuel))
            inspector
            (hex_prefix ks false)
            (handle_of t)
            s
            (at_start dead))
          ns
          (path ks t)
          dead
  unfolding remove_extension node_of value_at IsTrie
  remove_path below =
      let (slice, read, kv) = key_slice-Views ks false hk in
      let cp = common_prefix-Views slice s ks ns kv vs ∙ ap ok (shared_comm ks ns) in
      elim (Bool-cases (shared ns ks == length ks)) [
        | inl e ↦
            let full = (==_iff _ _).0 e in
            elim (below full) [
              | gone run left f ↦ absurd (f hf)
              | unchanged u run h f reads ↦
                  restored (path ks u)
                    (rw (read, cp, len-Views slice ks kv, e, run, on_path full) refl)
                    (hk, long, f hf, h) (λ k. absurd k) (path-Without u full reads)
              | changed u run h reads ↦
                  let (u', fixed, good) =
                    fix_path db fuel (ended (drop (shared ns ks) ns) t dead) ks u hk long h in
                  replaced u'
                    (rw (read, cp, len-Views slice ks kv, e, run, fixed, on_path full) refl)
                    good.shape (λ k. good.reads k ∙ path-Without u full reads k)
            ]
        | inr e ↦
            restored (path ks t) (rw (read, cp, len-Views slice ks kv, e, off_path e) refl)
              (hk, long, hf, ht) (λ k. absurd k) (left_alone ns (value_at (path ks t)) (off_path e))
      ]
    where
      off_path : (shared ns ks == length ks) ≡ false → value_at (path ks t) ns ≡ none
      off_path h = elim (Bool-cases (same ks (take (length ks) ns))) [
        | inl e ↦
            let full : (shared ns ks == length ks) ≡ true = (==_iff _ _).1 (same_front ns ks e) in
            cc
        | inr e ↦ rw e refl
      ]

      on_path :
          shared ns ks ≡ length ks → value_at (path ks t) ns ≡ value_at t (drop (shared ns ks) ns)
      on_path h = rw (same_front_back ns ks h, h) refl
