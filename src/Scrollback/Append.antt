-- ===== src/Scrollback/Append.antt =====
-- `Scrollback::append`: the ring keeps the last `size` bytes of all that was appended.
use zatch.Common.{
  true, false, ◌⊎◌, ℕ, ◌+◌, ◌-◌, ◌%◌, ◌≤◌, ◌<◌, ◌≡◌, ◌++◌, min, List, length, get_or, take, drop,
  copy_at, tabulate, length-tabulate, get_or-tabulate, length-append, length-drop, length-take,
  get_or-append, get_or-drop, get_or-take, length-copy_at, get_or-copy_at, list_ext, drop-append_ge,
  drop-append_none, leb→le, ==_iff, ltb, leb, ◌==◌, if◌then◌else◌, ◌&&◌, arith, inl, inr,
  Bool-cases, ltb→lt, ltb→le, refl, sym, ap, ◌∙◌,
}
use zatch.Scrollback.{Scrollback, write_ring, store, append}
use zatch.Scrollback.Window.{IsValid, contents, length-contents, round}

module _ (size : ℕ) (buf : List ℕ) (wp : ℕ) (bytes : List ℕ) (full : length buf ≡ size)
    (wp_in : wp < size) (fits : length bytes ≤ size) where
  length-write_ring : length (write_ring size buf wp bytes) ≡ size
  unfolding write_ring
  length-write_ring =
      let n1 = min (size - wp) (length bytes) in
      ground (
        arith,
        length-take n1 bytes,
        length-drop n1 bytes,
        length-copy_at buf wp (take n1 bytes),
        length-copy_at (copy_at buf wp (take n1 bytes)) 0 (drop n1 bytes),
      )

  -- The byte at index `p` is the one that was written there, or the old one.
  get_or-write_ring :
      (p : ℕ)
      → get_or (write_ring size buf wp bytes) p 0 ≡ (
          if leb wp p && ltb p (wp + min (size - wp) (length bytes))
          then get_or bytes (p - wp) 0
          else if ltb p (length bytes - min (size - wp) (length bytes))
          then get_or bytes (min (size - wp) (length bytes) + p) 0
          else get_or buf p 0)
  unfolding write_ring
  get_or-write_ring p =
      let n1 = min (size - wp) (length bytes) in
      ground (
        arith,
        length-take n1 bytes,
        length-drop n1 bytes,
        length-copy_at buf wp (take n1 bytes),
        get_or-copy_at buf wp (take n1 bytes) p 0,
        get_or-copy_at (copy_at buf wp (take n1 bytes)) 0 (drop n1 bytes) p 0,
        get_or-take n1 bytes (p - wp) 0,
        get_or-drop n1 bytes p 0,
      )

-- Where place `i` of the new ring stands: `h'` is the new head, `wp` the write position.
module _ (s h l m i h' wp p : ℕ) (hh : h < s) (hl : l ≤ s) (hm : m ≤ s)
    (lt : i + (l + m - s) < l + m) (eh : h' ≡ (h + (l + m - s)) % s) (ew : wp ≡ (h + l) % s)
    (ep : p ≡ (h' + i) % s) where
  -- A byte that stays: neither written region covers it.
  old_place :
      (l + m - s) + i < l
      → (p ≡ (h + ((l + m - s) + i)) % s)
        × ((leb wp p && ltb p (wp + min (s - wp) m)) ≡ false)
        × (ltb p (m - min (s - wp) m) ≡ false)
  old_place k =
      ground (arith, round s h l, round s h (l + m - s), round s h' i, round s h ((l + m - s) + i))

  -- A byte that is written: it stands in the first region, or else in the second.
  new_place :
      l ≤ (l + m - s) + i
      → (((leb wp p && ltb p (wp + min (s - wp) m)) ≡ true) × (p - wp ≡ (l + m - s) + i - l))
        ⊎ (((leb wp p && ltb p (wp + min (s - wp) m)) ≡ false)
            × (ltb p (m - min (s - wp) m) ≡ true)
            × (min (s - wp) m + p ≡ (l + m - s) + i - l))
  new_place k = ground (arith, round s h l, round s h (l + m - s), round s h' i)

module _ (size : ℕ) (sb : Scrollback) (bytes : List ℕ) (v : IsValid size sb)
    (fits : length bytes ≤ size) where
  open sb use {buf, head, len}

  -- How many of the oldest bytes are overwritten.
  abbrev excess : ℕ
  excess = len + length bytes - size

  -- The index in `contents ++ bytes` of the byte that stands at place `i` of the new ring.
  get_or-store :
      (i : ℕ)
      → i + excess < len + length bytes
      → get_or
          (write_ring size buf ((head + len) % size) bytes)
          (((head + excess) % size + i) % size)
          0
        ≡ get_or (contents size sb ++ bytes) (excess + i) 0
  get_or-store i lt = elim (Bool-cases (ltb (excess + i) len)) [
    | inl old ↦
        let k : excess + i < len = ltb→lt (excess + i) len old in
        let o =
          old_place size head len (length bytes) i h' wp p v.head_in v.len_in fits lt refl refl refl
            k in
        rw (
          written,
          o.1,
          o.2,
          get_or-append (contents size sb) bytes (excess + i) 0,
          length-contents size sb,
          old,
          get_or-tabulate len (λ j. get_or buf ((head + j) % size) 0) (excess + i) 0 k,
          ← o.0,
        )
    | inr new ↦
        let k : len ≤ excess + i = ltb→le (excess + i) len new in
        let o =
          new_place size head len (length bytes) i h' wp p v.head_in v.len_in fits lt refl refl refl
            k in
        rw (get_or-append (contents size sb) bytes (excess + i) 0, length-contents size sb, new)
          (elim o [ inl f ↦ rw (written, f.0, f.1) | inr g ↦ rw (written, g.0, g.1, g.2) ])
  ]
    where
      h' : ℕ
      h' = (head + excess) % size

      wp : ℕ
      wp = (head + len) % size

      p : ℕ
      p = (h' + i) % size

      wp_in : wp < size
      wp_in = omega (arith, v.head_in)

      written : get_or (write_ring size buf wp bytes) p 0 ≡ (
          if leb wp p && ltb p (wp + min (size - wp) (length bytes))
          then get_or bytes (p - wp) 0
          else if ltb p (length bytes - min (size - wp) (length bytes))
          then get_or bytes (min (size - wp) (length bytes) + p) 0
          else get_or buf p 0)
      written = get_or-write_ring size buf wp bytes v.full_size wp_in fits p

  -- The new head, written as the code computes it when the ring overflows.
  new_head :
      size < len + length bytes
      → (head + (len + length bytes) - size) % size ≡ (head + excess) % size
  new_head o = ap (λ (t : ℕ). t % size) (omega arith)

  old_head : len + length bytes ≤ size → (head + excess) % size ≡ head
  old_head o = ground (arith, round size head excess, v.head_in)

  store-IsValid : IsValid size (store size sb bytes)
  unfolding store
  store-IsValid = ground (
    arith,
    v,
    length-write_ring size buf ((head + len) % size) bytes v.full_size (omega (arith, v.head_in))
        fits,
  )

  len-store : (store size sb bytes).len ≡ min size (len + length bytes)
  unfolding store
  len-store = ground arith

  head-store : (store size sb bytes).head ≡ (head + excess) % size
  unfolding store
  head-store = ground (arith, new_head, old_head)

  buf-store : (store size sb bytes).buf ≡ write_ring size buf ((head + len) % size) bytes
  unfolding store
  buf-store = ground arith

  -- The byte at place `i` of the new ring.
  abbrev new_byte : ℕ → ℕ
  new_byte i =
      get_or (write_ring size buf ((head + len) % size) bytes) (((head + excess) % size + i) % size)
        0

  contents-store : contents size (store size sb bytes) ≡ drop excess (contents size sb ++ bytes)
  contents-store =
      rw (buf-store, head-store, len-store) (list_ext _ _ 0 lengths λ i lt. read i (in_range i lt))
    where
      new_len : ℕ
      new_len = min size (len + length bytes)

      in_range : (i : ℕ) → i < length (tabulate new_len new_byte) → i < new_len
      in_range i lt = omega (arith, length-tabulate new_len new_byte)

      read :
          (i : ℕ)
          → i < new_len
          → get_or (tabulate new_len new_byte) i 0
            ≡ get_or (drop excess (contents size sb ++ bytes)) i 0
      read i lt =
          rw
            (
              get_or-drop excess (contents size sb ++ bytes) i 0,
              get_or-tabulate new_len new_byte i 0 lt,
            )
            (get_or-store i (omega arith))

      lengths :
          length (tabulate new_len new_byte) ≡ length (drop excess (contents size sb ++ bytes))
      lengths = omega (
        arith,
        v.len_in,
        length-tabulate new_len new_byte,
        length-drop excess (contents size sb ++ bytes),
        length-append (contents size sb) bytes,
        length-contents size sb,
      )

module _ (size : ℕ) (sb : Scrollback) (bytes : List ℕ) (v : IsValid size sb) where
  -- What is left of `data` after the cut.
  abbrev cut : List ℕ
  cut = if leb size (length bytes) then drop (length bytes - size) bytes else bytes

  cut-le : length cut ≤ size
  cut-le = ground (arith, length-drop (length bytes - size) bytes)

  -- `append` keeps the ring valid: its head and its length stay in range, its storage keeps its size.
  pub append-IsValid : IsValid size (append size sb bytes)
  unfolding append
  append-IsValid = ground (arith, v, store-IsValid size sb cut v cut-le)

  drop-cut :
      drop (sb.len + length cut - size) (contents size sb ++ cut)
      ≡ drop (sb.len + length bytes - size) (contents size sb ++ bytes)
  drop-cut = elim (Bool-cases (leb size (length bytes))) [
    | inl e ↦
        let big : size ≤ length bytes = leb→le size (length bytes) e in
        rw e (
          drop-append_ge (contents size sb) (drop (length bytes - size) bytes) _ 0
            (omega (arith, length-drop (length bytes - size) bytes, length-contents size sb))
          ∙ sym (
              drop-append_ge (contents size sb) bytes _ (length bytes - size)
                (omega (arith, length-contents size sb))))
    | inr e ↦ rw e
  ]

  -- If the ring satisfies its invariant, it holds after `append` the last `size` bytes of what it
  -- held followed by the data: all of it while it fits, else the oldest bytes are gone, whatever
  -- the size of the data.
  pub contents-append :
      contents size (append size sb bytes)
      ≡ drop (sb.len + length bytes - size) (contents size sb ++ bytes)
  unfolding append
  contents-append = elim (Bool-cases (length bytes == 0)) [
    | inl e ↦
        let none_new : length bytes ≡ 0 = (==_iff (length bytes) 0).0 e in
        rw e (sym (drop-append_none (contents size sb) bytes _ (omega (arith, v.len_in)) none_new))
    | inr e ↦ rw e (contents-store size sb cut v cut-le ∙ drop-cut)
  ]
