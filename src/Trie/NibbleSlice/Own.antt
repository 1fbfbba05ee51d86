-- ===== src/Trie/NibbleSlice/Own.antt =====
-- A slice with no second part as the list of its nibbles: what each operation does to that list.
use aion_utils.Prelude.{
  ℕ, ◌-◌, ◌*◌, ◌/◌, ◌%◌, ◌≤◌, ◌<◌, ◌≡◌, refl, sym, ap, ◌∙◌, Bool, true, false, List, [], ◌∷◌, ◌++◌,
  arith, ◌==◌, length, length-drop, drop, take, ok, All, All-drop, append-nil, Bool-cases, inl, inr,
  drop-nil, ◌⊎◌, ==_iff, take-eq_self, get_or,
}
use aion_utils.Prelude.Words.{IsBytes}
use aion_utils.Db.Map.{same, same_refl, same→eq, ne→same}
use aion_utils.Trie.Nibbles.{nibbles_of, length-nibbles_of, IsNibble}
use aion_utils.Trie.NibbleSlice.{
  NibbleSlice, new, new_offset, new_composed, len, at, mid, encoded, encoded_leftmost,
  common_prefix, from_encoded, eq, starts_with,
}
use aion_utils.Trie.NibbleSlice.View.{
  nibbles, own_nibbles, IsSlice, len-nibbles, at-nibbles, mid-nibbles, new_composed-nibbles,
}
use aion_utils.Trie.NibbleSlice.Compare.{shared, shared_front, common_prefix-shared}
use aion_utils.Trie.NibbleSlice.Encode.{
  pairs, hex_prefix, encoded-hex_prefix, encoded_leftmost-hex_prefix, get_or-IsNibble,
  nibbles-IsNibble, leaf_flag-lt, never,
}
use aion_utils.Trie.NibbleSlice.RoundTrip.{from_encoded-hex_prefix}

-- The slice holds these nibbles, in its own part.
pub record Views (s : NibbleSlice) (ns : List ℕ) : Type 0 where
  pub slice : IsSlice s
  pub single : s.data_encode_suffix ≡ []
  pub holds : nibbles s ≡ ns

own-nibbles : (s : NibbleSlice) → s.data_encode_suffix ≡ [] → nibbles s ≡ own_nibbles s
unfolding nibbles nibbles_of
own-nibbles s e =
    let gone : drop s.offset_encode_suffix (nibbles_of s.data_encode_suffix) ≡ [] =
      ap (λ d. drop s.offset_encode_suffix (nibbles_of d)) e ∙ drop-nil s.offset_encode_suffix in
    ap (λ t. own_nibbles s ++ t) gone ∙ append-nil (own_nibbles s)

-- A whole byte string.
pub new-Views : (bytes : List ℕ) → IsBytes bytes → Views (new bytes) (nibbles_of bytes)
unfolding nibbles nibbles_of
new-Views bytes h = record {
  slice = record {
    own_bytes = h;
    suffix_bytes = tt;
    own_offset = omega arith;
    suffix_offset = omega arith;
  };
  single = refl;
  holds = append-nil (nibbles_of bytes);
}

module _ (s : NibbleSlice) (ns : List ℕ) (v : Views s ns) where
  pub Views-IsNibble : All IsNibble ns
  Views-IsNibble = rw (sym v.holds) (nibbles-IsNibble s v.slice)

  pub len-Views : len s ≡ length ns
  len-Views = len-nibbles s v.slice ∙ ap length v.holds

  pub at-Views : (i : ℕ) → i < length ns → at s i ≡ ok (get_or ns i 0)
  at-Views i h = at-nibbles s v.slice i (rw v.holds h) ∙ ap (λ t. ok (get_or t i 0)) v.holds

  pub encoded-Views : (is_leaf : Bool) → encoded s is_leaf ≡ ok (hex_prefix ns is_leaf)
  encoded-Views is_leaf =
      encoded-hex_prefix s v.slice is_leaf ∙ ap (λ t. ok (hex_prefix t is_leaf)) v.holds

  pub encoded_leftmost-Views :
      (n : ℕ) (is_leaf : Bool) → encoded_leftmost s n is_leaf ≡ ok (hex_prefix (take n ns) is_leaf)
  encoded_leftmost-Views n is_leaf =
      encoded_leftmost-hex_prefix s v.slice n is_leaf
      ∙ ap (λ t. ok (hex_prefix (take n t) is_leaf)) v.holds

  pub mid-Views : (i : ℕ) → i ≤ length ns → Views (mid s i) (drop i ns)
  unfolding mid
  mid-Views i h =
      let own : own_nibbles s ≡ ns = sym (own-nibbles s v.single) ∙ v.holds in
      let size : length ns ≡ length s.own_data * 2 - s.offset =
        sym (ap length own)
        ∙ length-drop s.offset (nibbles_of s.own_data)
        ∙ ap (λ k. k - s.offset) (length-nibbles_of s.own_data) in
      let within = v.slice.own_offset in
      record {
        slice = record {
          own_bytes = v.slice.own_bytes;
          suffix_bytes = tt;
          own_offset = omega (arith, size, within);
          suffix_offset = omega arith;
        };
        single = refl;
        holds = mid-nibbles s i ∙ ap (drop i) own;
      }

pub common_prefix-Views :
    (s t : NibbleSlice) (ns ks : List ℕ)
    → Views s ns
    → Views t ks
    → common_prefix s t ≡ ok (shared ns ks)
common_prefix-Views s t ns ks vs vt =
    common_prefix-shared s t vs.slice vt.slice
    ∙ ap (λ a. ok (shared a (nibbles t))) vs.holds
    ∙ ap (λ b. ok (shared ns b)) vt.holds

pairs-IsBytes : (ns : List ℕ) → All IsNibble ns → IsBytes (pairs ns)
unfolding pairs
pairs-IsBytes [] h = tt
pairs-IsBytes (a ∷ []) h = tt
pairs-IsBytes (a ∷ b ∷ ns) (ha, (hb, h)) = (omega arith, pairs-IsBytes ns h)

hex_prefix-IsBytes :
    (ns : List ℕ) (is_leaf : Bool)
    → All IsNibble ns
    → IsBytes (hex_prefix ns is_leaf) × (0 < length (hex_prefix ns is_leaf))
unfolding hex_prefix
hex_prefix-IsBytes ns is_leaf h = elim (Bool-cases (length ns % 2 == 1)) [
  | inl odd ↦
      let bound = get_or-IsNibble ns 0 h in
      rw odd (
        (
          omega (arith, bound, leaf_flag-lt is_leaf),
          pairs-IsBytes (drop 1 ns) (All-drop IsNibble 1 ns h),
        ),
        omega arith,
      )
  | inr even ↦ rw even ((omega (arith, leaf_flag-lt is_leaf), pairs-IsBytes ns h), omega arith)
]

from_encoded-parts :
    (b : ℕ) (bytes : List ℕ) (t : NibbleSlice) (is_leaf : Bool)
    → from_encoded (b ∷ bytes) ≡ ok (t, is_leaf)
    → (t ≡ new_offset (b ∷ bytes) 1) ⊎ (t ≡ new_offset (b ∷ bytes) 2)
unfolding from_encoded
from_encoded-parts b bytes t is_leaf h = elim (Bool-cases (b / 16 % 2 == 1)) [
  | inl odd ↦ let read = rw odd at h in inl (cc)
  | inr even ↦ let read = rw even at h in inr (cc)
]

offset-IsSlice :
    (bytes : List ℕ) (o : ℕ)
    → IsBytes bytes
    → o ≤ 2
    → 0 < length bytes
    → IsSlice (new_offset bytes o)
offset-IsSlice bytes o h small some_byte = record {
  own_bytes = h;
  suffix_bytes = tt;
  own_offset = omega arith;
  suffix_offset = omega arith;
}

-- `from_encoded` of a hex-prefix encoding is a slice of the nibbles encoded.
pub from_encoded-Views :
    (ns : List ℕ) (is_leaf : Bool)
    → All IsNibble ns
    → (t : NibbleSlice) × (from_encoded (hex_prefix ns is_leaf) ≡ ok (t, is_leaf)) × Views t ns
from_encoded-Views ns is_leaf h =
    let (t, read, held) = from_encoded-hex_prefix ns is_leaf h in
    let (bytes, some_byte) = hex_prefix-IsBytes ns is_leaf h in
    (t, read, go (hex_prefix ns is_leaf) t bytes some_byte read held)
  where
    go :
        (bs : List ℕ) (t : NibbleSlice)
        → IsBytes bs
        → 0 < length bs
        → from_encoded bs ≡ ok (t, is_leaf)
        → nibbles t ≡ ns
        → Views t ns
    go [] t h k read held = absurd (omega arith)
    go (b ∷ bs) t h k read held = elim (from_encoded-parts b bs t is_leaf read) [
      | inl e ↦ record {
        slice = rw e (offset-IsSlice (b ∷ bs) 1 h (omega arith) k);
        single = rw e refl;
        holds = held;
      }
      | inr e ↦ record {
        slice = rw e (offset-IsSlice (b ∷ bs) 2 h (omega arith) k);
        single = rw e refl;
        holds = held;
      }
    ]

pub Bool_iff : (a b : Bool) → (a ≡ true → b ≡ true) → (b ≡ true → a ≡ true) → a ≡ b
Bool_iff true true f g = refl
Bool_iff true false f g = sym (f refl)
Bool_iff false true f g = g refl
Bool_iff false false f g = refl

module _ (s t : NibbleSlice) (ns ks : List ℕ) (vs : Views s ns) (vt : Views t ks) where
  -- `starts_with` as a test on the nibbles.
  pub starts_with-Views : starts_with s t ≡ ok (same ks (take (length ks) ns))
  unfolding starts_with
  starts_with-Views =
      let test : (shared ns ks == length ks) ≡ same ks (take (length ks) ns) =
        Bool_iff (shared ns ks == length ks) (same ks (take (length ks) ns))
          (λ e. ap (same ks) ((shared_front ns ks).0 e) ∙ same_refl ks)
          (λ e. (shared_front ns ks).1 (sym (same→eq ks (take (length ks) ns) e))) in
      rw (common_prefix-Views s t ns ks vs vt, len-Views t ks vt, test) refl

  -- `==` as a test on the nibbles.
  pub eq-Views : eq s t ≡ ok (same ns ks)
  unfolding eq
  eq-Views = elim (Bool-cases (len s == len t)) [
    | inl long ↦
        let size : length ns ≡ length ks =
          sym (len-Views s ns vs) ∙ (==_iff _ _).0 long ∙ len-Views t ks vt in
        let whole : take (length ks) ns ≡ ns = take-eq_self (length ks) ns size in
        let test : same ks ns ≡ same ns ks =
          Bool_iff (same ks ns) (same ns ks)
            (λ e. ap (λ i. same i ks) (sym (same→eq ks ns e)) ∙ same_refl ks)
            (λ e. ap (λ i. same i ns) (sym (same→eq ns ks e)) ∙ same_refl ns) in
        rw long (starts_with-Views ∙ ap (λ i. ok (same ks i)) whole ∙ ap ok test)
    | inr short ↦
        let apart : same ns ks ≡ false = ne→same ns ks (λ e.
          let size : len s ≡ len t = len-Views s ns vs ∙ ap length e ∙ sym (len-Views t ks vt) in
          never (sym short ∙ (==_iff _ _).1 size)) in
        rw (short, apart) refl
  ]

-- One nibble, in the low half of a byte.
pub new_offset-Views : (a : ℕ) → IsNibble a → Views (new_offset (a ∷ []) 1) (a ∷ [])
unfolding nibbles nibbles_of
new_offset-Views a h =
    let low : a % 16 ≡ a = omega arith in
    record {
      slice = record {
        own_bytes = (omega arith, tt);
        suffix_bytes = tt;
        own_offset = omega arith;
        suffix_offset = omega arith;
      };
      single = refl;
      holds = ap (λ n. n ∷ []) low;
    }

-- Two slices one after the other.
pub encoded-composed :
    (s t : NibbleSlice) (ns ks : List ℕ) (is_leaf : Bool)
    → Views s ns
    → Views t ks
    → encoded (new_composed s t) is_leaf ≡ ok (hex_prefix (ns ++ ks) is_leaf)
encoded-composed s t ns ks is_leaf vs vt =
    let here : own_nibbles s ≡ ns = sym (own-nibbles s vs.single) ∙ vs.holds in
    let there : own_nibbles t ≡ ks = sym (own-nibbles t vt.single) ∙ vt.holds in
    let both : IsSlice (new_composed s t) = record {
      own_bytes = vs.slice.own_bytes;
      suffix_bytes = vt.slice.own_bytes;
      own_offset = vs.slice.own_offset;
      suffix_offset = vt.slice.own_offset;
    } in
    encoded-hex_prefix (new_composed s t) both is_leaf
    ∙ ap (λ a. ok (hex_prefix a is_leaf))
        (new_composed-nibbles s t ∙ ap (λ a. a ++ own_nibbles t) here ∙ ap (λ b. ns ++ b) there)
