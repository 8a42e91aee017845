-- ===== src/Pst/Ndb/Space/Placement.antt =====
-- Where `allocate` of src/pst/ndb.cpp puts a range: at or behind the cursor, clear of every fixed
-- page, and found within the fuel.
use imap2pst.Base.{
  ℕ, zero, suc, ◌+◌, ◌-◌, ◌*◌, ◌/◌, ◌%◌, ◌^◌, ◌≤◌, ◌<◌, ◌≡◌, ◌≢◌, ◌⊎◌, inl, inr, sym, ◌∙◌, true,
  arith, none, some, Bool-cases, Option-cases, bit_and, leb, ◌==◌, ==→eq, leb→gt,
}
use imap2pst.Base.Bits.{bit_and_even, bit_and_mask}
use imap2pst.Pst.Format.{page_size, first_amap_pos, first_data_pos, amap_span}
use imap2pst.Pst.Ndb.Space.{is_reserved_page, clash_from, clash, find_space, allocate_fuel}

-- `cursor & ~(kPageSize - 1)` is the start of the page.
align_down : (c : ℕ) → c < 2 ^ 64 → bit_and c (2 ^ 64 - page_size) ≡ c / 512 * 512
align_down c h = omega (
  arith,
  bit_and_even c (2 ^ 63 - 256),
  bit_and_even (c / 2) (2 ^ 62 - 128),
  bit_and_even (c / 2 / 2) (2 ^ 61 - 64),
  bit_and_even (c / 2 / 2 / 2) (2 ^ 60 - 32),
  bit_and_even (c / 2 / 2 / 2 / 2) (2 ^ 59 - 16),
  bit_and_even (c / 2 / 2 / 2 / 2 / 2) (2 ^ 58 - 8),
  bit_and_even (c / 2 / 2 / 2 / 2 / 2 / 2) (2 ^ 57 - 4),
  bit_and_even (c / 2 / 2 / 2 / 2 / 2 / 2 / 2) (2 ^ 56 - 2),
  bit_and_even (c / 2 / 2 / 2 / 2 / 2 / 2 / 2 / 2) (2 ^ 55 - 1),
  bit_and_mask 55 (c / 2 / 2 / 2 / 2 / 2 / 2 / 2 / 2 / 2),
)

-- The fixed page at `q` and the range of `cb` bytes at `cursor` overlap.
pub record Meets (q cursor cb : ℕ) : Type 0 where
  pub aligned : q % page_size ≡ 0
  pub reserved : is_reserved_page q ≡ true
  pub ends_behind : cursor < q + page_size
  pub starts_before : q < cursor + cb

module _ (cursor q : ℕ) (reserved : is_reserved_page q ≡ true)
    (behind : cursor < q + page_size) where
  clash_from-none :
      (left p : ℕ)
      → p % page_size ≡ 0
      → q % page_size ≡ 0
      → p ≤ q
      → q < p + left * page_size
      → clash_from left p cursor ≢ none
  unfolding clash_from
  clash_from-none zero p hp hq lo hi e = absurd (omega arith)
  clash_from-none (suc left) p hp hq lo hi e = elim (Bool-cases (p == q)) [
    | inl same ↦ ground (arith, ==→eq p q same)
    | inr other ↦
        clash_from-none left (p + page_size) (omega arith) hq (ground arith) (omega arith)
          (ground arith)
  ]

clash_from-some :
    (left p cursor cb next : ℕ)
    → p % page_size ≡ 0
    → p + left * page_size < cursor + cb + page_size
    → clash_from left p cursor ≡ some next
    → (q : ℕ) × (next ≡ q + page_size) × Meets q cursor cb
unfolding clash_from
clash_from-some zero p cursor cb next hp hl e = absurd (cc)
clash_from-some (suc left) p cursor cb next hp hl e =
    let later = λ (h : clash_from left (p + page_size) cursor ≡ some next).
      clash_from-some left (p + page_size) cursor cb next (omega arith) (omega arith) h in
    elim (Bool-cases (leb (p + page_size) cursor)) [
      | inl skipped ↦ later (ground arith)
      | inr behind ↦ elim (Bool-cases (is_reserved_page p)) [
        | inl reserved ↦ (
          p,
          ground arith,
          record {
            aligned = hp;
            reserved = reserved;
            ends_behind = leb→gt _ _ behind;
            starts_before = omega arith;
          },
        )
        | inr free ↦ later (ground arith)
      ]
    ]

module _ (cursor cb : ℕ) (small : cursor < 2 ^ 63) (small_cb : cb < 2 ^ 62) where
  rounds : ℕ
  rounds = (cursor + cb - cursor / 512 * 512 + 511) / 512

  clash_lem : clash cursor cb ≡ clash_from rounds (cursor / 512 * 512) cursor
  unfolding clash rounds
  clash_lem = rw (align_down cursor (omega arith))

  pub clash-none : clash cursor cb ≡ none → (q : ℕ) → ¬ (Meets q cursor cb)
  unfolding rounds
  clash-none e q m =
      clash_from-none cursor q m.reserved m.ends_behind rounds (cursor / 512 * 512) (omega arith)
        m.aligned (omega arith) (omega arith) (sym clash_lem ∙ e)

  pub clash-some :
      (next : ℕ)
      → clash cursor cb ≡ some next
      → (q : ℕ) × (next ≡ q + page_size) × Meets q cursor cb
  unfolding rounds
  clash-some next e =
      clash_from-some rounds (cursor / 512 * 512) cursor cb next (omega arith) (omega arith)
        (sym clash_lem ∙ e)

-- Behind the header region the fixed pages stand at the start of a span or one page further on.
reserved-offset :
    (q : ℕ)
    → first_data_pos ≤ q
    → is_reserved_page q ≡ true
    → ((q - first_amap_pos) % amap_span ≡ 0) ⊎ ((q - first_amap_pos) % amap_span ≡ page_size)
unfolding is_reserved_page
reserved-offset q h r = ground arith

-- The offset of a position in its allocation-map span.
abbrev span_offset : ℕ → ℕ
span_offset pos = (pos - first_amap_pos) % amap_span

module _ (cursor cb : ℕ) (lo : first_data_pos ≤ cursor) (hi : cursor < 2 ^ 62)
    (fits : cb ≤ 8192) where
  after_clash :
      (next : ℕ)
      → clash cursor cb ≡ some next
      → (next % page_size ≡ 0)
        × (cursor < next)
        × (next < cursor + cb + page_size)
        × ((span_offset next ≡ page_size) ⊎ (span_offset next ≡ 2 * page_size))
  after_clash next e =
      let (q, eq, m) = clash-some cursor cb (omega arith) (omega arith) next e in
      let where_it_is = reserved-offset q (omega (arith, m.aligned, m.ends_behind)) m.reserved in
      (
        omega (arith, m.aligned),
        omega (arith, m.ends_behind),
        omega (arith, m.starts_before),
        omega (arith, where_it_is, m.aligned),
      )

  after_pmap : span_offset cursor ≡ 2 * page_size → clash cursor cb ≡ none
  after_pmap h = elim (Option-cases (clash cursor cb)) [
    | inl none_left ↦ none_left
    | inr (next, e) ↦ absurd (omega (arith, after_clash next e))
  ]

-- `ib` is a place for `cb` bytes that the cursor reaches by stepping over at most two pages.
pub record IsPlaced (cursor cb ib : ℕ) : Type 0 where
  pub at_or_behind : cursor ≤ ib
  pub near : ib < cursor + 2 * (cb + page_size)
  pub clear : clash ib cb ≡ none
  pub kept_alignment : cursor % 64 ≡ 0 → ib % 64 ≡ 0
  pub kept_page : cursor % page_size ≡ 0 → ib % page_size ≡ 0

-- The search of `allocate` for room ends within three rounds for at most 8192 bytes behind the fixed first
-- pages: at or behind the cursor, near it, and where the range meets no fixed page; a cursor at a multiple
-- of 64 or of 512 leads to such a multiple again.
pub find_space-IsPlaced :
    (cursor cb : ℕ)
    → first_data_pos ≤ cursor
    → cursor < 2 ^ 60
    → cb ≤ 8192
    → (ib : ℕ) × (find_space allocate_fuel cursor cb ≡ some ib) × IsPlaced cursor cb ib
unfolding find_space
find_space-IsPlaced cursor cb lo hi fits = elim (Option-cases (clash cursor cb)) [
  | inl free ↦ (
    cursor,
    rw (free, find_space),
    record {
      at_or_behind = omega arith;
      near = omega arith;
      clear = free;
      kept_alignment = λ h. h;
      kept_page = λ h. h;
    },
  )
  | inr (a, ea) ↦
      let fa = after_clash cursor cb lo (omega arith) fits a ea in
      elim (Option-cases (clash a cb)) [
        | inl free ↦ (
          a,
          rw (ea, find_space) (rw (free, find_space)),
          record {
            at_or_behind = omega arith;
            near = omega arith;
            clear = free;
            kept_alignment = λ h. omega arith;
            kept_page = λ h. omega arith;
          },
        )
        | inr (b, eb) ↦
            let fb = after_clash a cb (omega arith) (omega arith) fits b eb in
            let free : clash b cb ≡ none =
              after_pmap b cb (omega arith) (omega arith) fits (omega arith) in
            (
              b,
              rw (ea, find_space) (rw (eb, find_space) (rw (free, find_space))),
              record {
                at_or_behind = omega arith;
                near = omega arith;
                clear = free;
                kept_alignment = λ h. omega arith;
                kept_page = λ h. omega arith;
              },
            )
      ]
]
