-- ===== src/Helper/Exec/Capture.antt =====
-- What `Run` and `RunCapped` of daemon/internal/helper/exec/exec.go keep of a child's output, and
-- what they report.
use host_health_mcp.Base.{
  ℕ, ◌-◌, ◌≤◌, ◌<◌, ◌≡◌, refl, sym, ap, ◌∙◌, arith, Bytes, Bool, true, none, List, [], ◌∷◌, ◌++◌,
  length, take, ltb, ◌==◌, if◌then◌else◌, inl, inr, Bool-cases, length-append, take_all,
  take-append, append_assoc, append_nil,
}
use host_health_mcp.Helper.Exec.{Read, Child, keep_room, read_loop, waited, capped_from, run_capped}

-- The bytes past a full prefix are not taken.
pub take_full : (n : ℕ) (xs ys : Bytes) → n ≤ length xs → take n (xs ++ ys) ≡ take n xs
take_full n xs ys h =
    let none_left : n - length xs ≡ 0 = omega (arith, h) in
    take-append n xs ys ∙ (rw none_left (append_nil (take n xs)))

-- A buffer within the cap is cut behind itself.
pub take_room :
    (n : ℕ) (xs ys : Bytes) → length xs ≤ n → take n (xs ++ ys) ≡ xs ++ take (n - length xs) ys
take_room n xs ys h = take-append n xs ys ∙ rw (take_all n xs h) refl

keep_room_lem :
    (n : ℕ) (buf chunk : Bytes)
    → length buf ≤ n
    → ((keep_room n buf chunk).0 ≡ take n (buf ++ chunk))
      × ((keep_room n buf chunk).1 ≡ ltb n (length (buf ++ chunk)))
unfolding keep_room
keep_room_lem n buf [] h =
    (sym (ap (take n) (append_nil buf) ∙ take_all n buf h), rw (append_nil buf) (ground (arith, h)))
keep_room_lem n buf (c ∷ cs) h =
    let cut = take_room n buf (c ∷ cs) h in
    let total = length-append buf (c ∷ cs) in
    elim (Bool-cases (n - length buf == 0)) [
      | inl full ↦
          let z : n - length buf ≡ 0 = ground (arith, full) in
          let none_kept : buf ++ take (n - length buf) (c ∷ cs) ≡ buf = rw z (append_nil buf) in
          ground (arith, cut, none_kept, total)
      | inr space ↦ elim (Bool-cases (ltb (n - length buf) (length (c ∷ cs)))) [
        | inl over ↦ ground (arith, cut, total)
        | inr fits ↦
            let whole : take (n - length buf) (c ∷ cs) ≡ c ∷ cs =
              take_all (n - length buf) (c ∷ cs) (ground (arith, fits)) in
            let kept : buf ++ take (n - length buf) (c ∷ cs) ≡ buf ++ (c ∷ cs) = rw whole refl in
            ground (arith, cut, kept, total)
      ]
    ]

-- The bytes that a child's pipe delivers until it ends.
unfoldable pub delivered : List Read → Bytes
delivered [] = []
delivered (r ∷ rs) = if r.last then r.bytes else r.bytes ++ delivered rs

-- The loop keeps the first `n` bytes delivered, tells whether there are more, and signals the child
-- only if there are.
read_loop_lem :
    (n : ℕ) (buf : Bytes) (rs : List Read)
    → length buf ≤ n
    → ((read_loop n buf rs).0 ≡ take n (buf ++ delivered rs))
      × ((read_loop n buf rs).1 ≡ ltb n (length (buf ++ delivered rs)))
unfolding read_loop delivered
read_loop_lem n buf [] h =
    (sym (ap (take n) (append_nil buf) ∙ take_all n buf h), rw (append_nil buf) (ground (arith, h)))
read_loop_lem n buf (r ∷ rs) h =
    let once = keep_room_lem n buf r.bytes h in
    let assoc = append_assoc buf r.bytes (delivered rs) in
    let buf' = (keep_room n buf r.bytes).0 in
    elim (Bool-cases r.last) [
      | inl last ↦ rw last once
      | inr more ↦ rw more (elim (Bool-cases (keep_room n buf r.bytes).1) [
        | inl cut ↦ rw cut (
            let long : n < length (buf ++ r.bytes) = ground (arith, once.1, cut) in
            (
              once.0
                  ∙ sym (take_full n (buf ++ r.bytes) (delivered rs) (omega (arith, long)))
                  ∙ ap (take n) assoc,
              ground (arith, long, length-append (buf ++ r.bytes) (delivered rs), ap length assoc),
            ))
        | inr whole ↦ rw whole (
            let short : length (buf ++ r.bytes) ≤ n = ground (arith, once.1, whole) in
            let joined : buf' ≡ buf ++ r.bytes = once.0 ∙ take_all n (buf ++ r.bytes) short in
            let same : buf' ++ delivered rs ≡ buf ++ (r.bytes ++ delivered rs) =
              ap (λ (x : Bytes). x ++ delivered rs) joined ∙ assoc in
            let rest = read_loop_lem n buf' rs (omega (arith, short, ap length joined)) in
            (rest.0 ∙ ap (take n) same, rest.1 ∙ ap (λ (x : Bytes). ltb n (length x)) same))
      ])
    ]

-- The child is signalled only when bytes were given up.
read_loop-signalled :
    (n : ℕ) (buf : Bytes) (rs : List Read)
    → (read_loop n buf rs).2 ≡ true
    → (read_loop n buf rs).1 ≡ true
unfolding read_loop
read_loop-signalled n buf [] h = cc
read_loop-signalled n buf (r ∷ rs) h =
    ground (arith, h, read_loop-signalled n (keep_room n buf r.bytes).0 rs)

module _ (sha256_hex : Bytes → Bytes) where
  -- A child that starts leaves the first `max_bytes` bytes it delivered, with a flag that says
  -- whether there were more; the error is what waiting for it reports, after a signal that is sent
  -- only if there were more, so that a child that ends by that signal is reported as failed.
  pub run_capped_lem :
      (max_bytes : ℕ) (child : Child)
      → child.start ≡ none
      → (let (buf, truncated, e) = run_capped sha256_hex max_bytes child in
          (buf ≡ take max_bytes (delivered child.reads))
          × (truncated ≡ ltb max_bytes (length (delivered child.reads)))
          × ((signalled : Bool) × (e ≡ waited sha256_hex (child.wait signalled) child)
              × (signalled ≡ true → truncated ≡ true)))
  unfolding capped_from
  run_capped_lem max_bytes child started =
      let (kept, flag) = read_loop_lem max_bytes [] child.reads (omega arith) in
      rw (ap (capped_from sha256_hex max_bytes child) started)
        (kept, flag, (_, refl, read_loop-signalled max_bytes [] child.reads))
