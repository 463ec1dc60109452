-- ===== src/WriteBatch/Atomic.antt =====
-- The builder's error paths.
use exasol_gateway_sdk.Errors.{Error, protocol_error}
use exasol_gateway_sdk.Base.Outcome
use exasol_gateway_sdk.Base.{
  ℕ, ◌+◌, ◌*◌, ◌%◌, ◌^◌, ◌≤◌, List, [], ◌∷◌, ◌++◌, Bool, not, ◌||◌, Result, ok, err, fault, ltb,
  leb, ◌==◌, length, length-append, ◌≡◌, refl, ap, arith, ◌⊎◌, ◌≢◌, true, false, inl, inr,
  Bool-cases, append_assoc,
}
use exasol_gateway_sdk.Base.Bytes.{big_endian, length-big_endian}
use Prim.Native.String.{String}
use exasol_gateway_sdk.Base.State.{require, modify, ◌>>◌}
use exasol_gateway_sdk.WriteBatch.{NativeWriteBatchBuilder, sub_size}
use exasol_gateway_sdk.WriteBatch.Builder.{
  ensure_started, align_output, all_null_bytes, append_null_vector, append_fixed_column, described,
  append_sizes, append_variable_column, finish, append_native_write_u32, insert, count_column,
}
use exasol_gateway_sdk.WriteBatch.Buffers.{
  aligned, length-aligned, placed, sizes_layout, align_output-aligned, append_sizes-layout,
  length-sizes_layout, append_native_write_u32-big_endian,
}

abbrev not_open : String
not_open = "SessionGW native write batch builder is not open"

-- The call returned, or it threw and left the builder as it was; it made no access out of range.
abbrev pub IsAtomic : NativeWriteBatchBuilder → Result (Unit {0}) × NativeWriteBatchBuilder → Type 0
IsAtomic b (ok u, c) = Unit {0}
IsAtomic b (err e, c) = c ≡ b
IsAtomic b (fault, c) = ⊥

-- The null vector is in, or an error was thrown before anything was written.
null_vector_cases :
    (b : NativeWriteBatchBuilder) (before batch nulls : List ℕ)
    → length before + length batch + 16 ≤ 2 ^ 64
    → ((append_null_vector nulls (placed b before batch)
          ≡ (ok tt, placed b before (aligned batch ++ nulls)))
        × (length nulls ≡ b.row_count))
      ⊎ ((e : Error) × (append_null_vector nulls (placed b before batch)
            ≡ (err e, placed b before batch)))
unfolding append_null_vector
null_vector_cases b before batch nulls room =
    elim (Bool-cases (leb b.column_count b.appended_columns || not (length nulls == b.row_count))) [
      | inl wrong ↦ rw wrong (inr (_, refl))
      | inr right ↦ elim (Bool-cases (all_null_bytes nulls)) [
        | inl good ↦ inl (
          rw (right, good, align_output-aligned b before batch room)
              (ap (λ (t : List ℕ). (ok tt, record b { output = t; batch_offset = length before }))
                (append_assoc before (aligned batch) nulls)),
          ground arith,
        )
        | inr bad ↦ rw (right, bad) (inr (_, refl))
      ]
    ]

ensure_started_cases :
    (b : NativeWriteBatchBuilder)
    → (ensure_started b ≡ (ok tt, b)) ⊎ ((e : Error) × (ensure_started b ≡ (err e, b)))
unfolding ensure_started
ensure_started_cases b = elim (Bool-cases b.started) [
  | inl started ↦ inl (ap (λ (t : Bool). require t not_open b) started)
  | inr stopped ↦ inr (_, ap (λ (t : Bool). require t not_open b) stopped)
]

-- While the vector is short of 2 ^ 64 by the column's null vector and 32 bytes, a call for a
-- fixed-width column, whatever its arguments, returns or throws with the builder and the vector as
-- they were.
pub append_fixed_column-IsAtomic :
    (b : NativeWriteBatchBuilder) (before batch nulls values : List ℕ)
    → length before + length batch + length nulls + 32 ≤ 2 ^ 64
    → IsAtomic (placed b before batch) (append_fixed_column nulls values (placed b before batch))
unfolding append_fixed_column
append_fixed_column-IsAtomic b before batch nulls values room =
    elim (ensure_started_cases (placed b before batch)) [
      | inl open' ↦ elim (null_vector_cases b before batch nulls (omega arith)) [
        | inl (nulled, _) ↦
            rw
              (
                open',
                nulled,
                align_output-aligned b before (aligned batch ++ nulls)
                    (omega (arith, length-append {0} (aligned batch) nulls, length-aligned batch)),
              )
              tt
        | inr (e, thrown) ↦ rw (open', thrown) refl
      ]
      | inr (e, shut) ↦ rw shut refl
    ]

described_cases :
    (sizes : List ℕ) (extent sum : ℕ)
    → ((t : ℕ) × (described sizes extent sum ≡ ok t))
      ⊎ ((e : Error) × (described sizes extent sum ≡ err e))
unfolding described
described_cases [] extent sum = inl (sum, refl)
described_cases (size ∷ sizes) extent sum = elim (Bool-cases (ltb (sub_size extent sum) size)) [
  | inl over ↦ rw over (inr (_, refl))
  | inr within ↦ rw within (described_cases sizes extent ((sum + size) % 2 ^ 64))
]

-- Behind the null vector of a variable-width column, nothing is thrown.
after_nulls :
    (b : NativeWriteBatchBuilder) (before batch nulls sizes values : List ℕ)
    → length before + length batch + length nulls + length sizes * 8 + 64 ≤ 2 ^ 64
    → IsAtomic (placed b before batch) (
        (align_output
            >> (append_sizes sizes
                >> (modify
                      (λ c. record c { output = append_native_write_u32 c.output (length values) })
                    >> (align_output >> (insert values >> count_column)))))
          (placed b before (aligned batch ++ nulls)))
after_nulls b before batch nulls sizes values room =
    let nulled = aligned batch ++ nulls in
    let sized = aligned nulled ++ sizes_layout sizes in
    let l1 = length-append {0} (aligned batch) nulls in
    let l2 = length-append {0} (aligned nulled) (sizes_layout sizes) in
    let l3 = length-append {0} sized (big_endian 4 (length values)) in
    rw
      (
        align_output-aligned b before nulled (omega (arith, l1, length-aligned batch)),
        append_sizes-layout b before (aligned nulled) sizes
            (omega (arith, l1, length-aligned batch, length-aligned nulled)),
        append_native_write_u32-big_endian (before ++ sized) (length values),
        append_assoc before sized (big_endian 4 (length values)),
        align_output-aligned b before (sized ++ big_endian 4 (length values)) (
            omega (
              arith,
              l1,
              l2,
              l3,
              length-aligned batch,
              length-aligned nulled,
              length-sizes_layout sizes,
              length-big_endian 4 (length values),
            )),
      )
      tt

-- While the vector is short of 2 ^ 64 by the column's null vector, its sizes and 64 bytes, a call for
-- a variable-width column, whatever its arguments, returns or throws with the builder and the vector
-- as they were.
pub append_variable_column-IsAtomic :
    (b : NativeWriteBatchBuilder) (before batch nulls sizes values : List ℕ)
    → length before + length batch + length nulls + length sizes * 8 + 64 ≤ 2 ^ 64
    → IsAtomic
        (placed b before batch)
        (append_variable_column nulls sizes values (placed b before batch))
unfolding append_variable_column
append_variable_column-IsAtomic b before batch nulls sizes values room =
    elim (ensure_started_cases (placed b before batch)) [
      | inl open' ↦ elim (Bool-cases (length sizes == b.row_count)) [
        | inl one_each ↦ elim (Bool-cases (ltb 0xffff_ffff (length values))) [
          | inl large ↦ rw (open', one_each, large) refl
          | inr small ↦ elim (described_cases sizes (length values) 0) [
            | inl (t, d) ↦ elim (Bool-cases (t == length values)) [
              | inl covered ↦ elim (null_vector_cases b before batch nulls (omega arith)) [
                | inl (nulled, _) ↦
                    rw (open', one_each, small, d, covered, nulled)
                      (after_nulls b before batch nulls sizes values room)
                | inr (e, thrown) ↦ rw (open', one_each, small, d, covered, thrown) refl
              ]
              | inr short ↦ rw (open', one_each, small, d, short) refl
            ]
            | inr (e, over) ↦ rw (open', one_each, small, over) refl
          ]
        ]
        | inr many ↦ rw (open', many) refl
      ]
      | inr (e, shut) ↦ rw shut refl
    ]

-- What `finish` does: the builder is closed, with zeros up to a multiple of 16 behind the batch; or it
-- throws and the builder and the vector are as they were.
abbrev pub IsFinished :
    NativeWriteBatchBuilder → List ℕ → List ℕ → Result (Unit {0}) × NativeWriteBatchBuilder → Type 0
IsFinished b before batch (ok u, c) =
    (b.started ≡ true)
    × (b.appended_columns ≡ b.column_count)
    × (c ≡ record (placed b before (aligned batch)) { started = false })
IsFinished b before batch (err e, c) =
    ((b.started ≡ false) ⊎ (b.appended_columns ≢ b.column_count)) × (c ≡ placed b before batch)
IsFinished b before batch (fault, c) = ⊥

-- With room for 16 bytes more, `finish` on every branch: if it returns, the builder was open with as
-- many columns as announced, the vector has zeros up to a multiple of 16 behind the batch, and the
-- builder is closed; if it throws, the builder was not open or the columns are not as many, and the
-- builder and the vector are as they were.
pub finish-IsFinished :
    (b : NativeWriteBatchBuilder) (before batch : List ℕ)
    → length before + length batch + 16 ≤ 2 ^ 64
    → IsFinished b before batch (finish (placed b before batch))
unfolding finish
finish-IsFinished b before batch room = elim (Bool-cases b.started) [
  | inl open' ↦ elim (Bool-cases (b.appended_columns == b.column_count)) [
    | inl all_in ↦
        rw (opened open', all_in, align_output-aligned b before batch room)
          (open', all_columns all_in, refl)
    | inr some_out ↦ rw (opened open', some_out) (inr (missing some_out), refl)
  ]
  | inr shut ↦ rw (refused shut) (inl shut, refl)
]
  where
    refused :
        b.started ≡ false
        → ensure_started (placed b before batch)
          ≡ (Outcome.throw protocol_error not_open, placed b before batch)
    refused shut =
        unfold ensure_started in ap (λ (t : Bool). require t not_open (placed b before batch)) shut

    opened :
        b.started ≡ true → ensure_started (placed b before batch) ≡ (ok tt, placed b before batch)
    opened open' =
        unfold ensure_started in ap (λ (t : Bool). require t not_open (placed b before batch)) open'

    all_columns :
        (b.appended_columns == b.column_count) ≡ true → b.appended_columns ≡ b.column_count
    all_columns h = ground arith

    missing : (b.appended_columns == b.column_count) ≡ false → b.appended_columns ≢ b.column_count
    missing h e = ground (arith, h, e)
