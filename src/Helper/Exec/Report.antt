-- ===== src/Helper/Exec/Report.antt =====
-- What `Run` of daemon/internal/helper/exec/exec.go keeps and reports, and what of a child's stderr
-- leaves the helper.
use host_health_mcp.Base.{
  ℕ, suc, ◌+◌, ◌-◌, ◌≤◌, ◌<◌, ◌≡◌, refl, sym, ap, ◌∙◌, arith, Bytes, true, false, not, ◌||◌, some,
  List, [], ◌∷◌, ◌++◌, length, take, ltb, if◌then◌else◌, ◌⊎◌, inl, inr, Bool-cases, lt→ltb,
  length-append, length-take, take_all, append_assoc, append_nil, map, All, min,
}
use host_health_mcp.Helper.Exec.Capture.{take_full, take_room}
use host_health_mcp.Helper.Exec.{
  max_stdout, stderr_prefix_max, sanitise_byte, sanitise_stderr_prefix, CappedWriter, write, copy,
  past_cap, Child, classify, classified, run_error, printed, run,
}

write_lem :
    (p : Bytes) (w : CappedWriter)
    → length w.buf ≤ w.max
    → ((write p w).0.buf ≡ take w.max (w.buf ++ p))
      × ((write p w).0.max ≡ w.max)
      × ((write p w).0.truncated ≡ (ltb w.max (length (w.buf ++ p)) || w.truncated))
      × ((write p w).1 ≡ not (ltb w.max (length (w.buf ++ p))))
unfolding write
write_lem p w h =
    let cut = take_room w.max w.buf p h in
    let total = length-append w.buf p in
    elim (Bool-cases (ltb w.max (length w.buf + length p))) [
      | inl over ↦ elim (Bool-cases (ltb 0 (w.max - length w.buf))) [
        | inl room ↦ ground (arith, cut, total, over, room)
        | inr full ↦
            let z : w.max - length w.buf ≡ 0 = ground (arith, full) in
            let nothing : w.buf ++ take (w.max - length w.buf) p ≡ w.buf =
              rw z (append_nil w.buf) in
            ground (arith, cut, total, over, full, nothing)
      ]
      | inr fits ↦
          let whole = take_all w.max (w.buf ++ p) (ground (arith, fits, total)) in
          ground (arith, whole, total, fits)
    ]

-- All that a child writes.
abbrev pub written : List Bytes → Bytes
written [] = []
written (p ∷ ps) = p ++ written ps

copy_lem :
    (ps : List Bytes) (w : CappedWriter)
    → length w.buf ≤ w.max
    → w.truncated ≡ false
    → ((copy ps w).buf ≡ take w.max (w.buf ++ written ps))
      × ((copy ps w).truncated ≡ ltb w.max (length (w.buf ++ written ps)))
unfolding copy
copy_lem [] w h f = (
  sym (ap (take w.max) (append_nil w.buf) ∙ take_all w.max w.buf h),
  rw (append_nil w.buf) (ground (arith, h, f)),
)
copy_lem (p ∷ ps) w h f =
    let (bytes, cap, flag, fine) = write_lem p w h in
    let w' = (write p w).0 in
    let assoc = append_assoc w.buf p (written ps) in
    elim (Bool-cases (ltb w.max (length (w.buf ++ p)))) [
      | inl over ↦
          let long : w.max < length (w.buf ++ p) = ground (arith, over) in
          let stop : (write p w).1 ≡ false = fine ∙ rw over refl in
          rw stop (
            bytes
                ∙ sym (take_full w.max (w.buf ++ p) (written ps) (omega (arith, long)))
                ∙ ap (take w.max) assoc,
            flag
                ∙ ground
                    (arith, long, over, length-append (w.buf ++ p) (written ps), ap length assoc),
          )
      | inr room ↦
          let short : length (w.buf ++ p) ≤ w.max = ground (arith, room) in
          let joined : w'.buf ≡ w.buf ++ p = bytes ∙ take_all w.max (w.buf ++ p) short in
          let same : w'.buf ++ written ps ≡ w.buf ++ (p ++ written ps) =
            ap (λ (x : Bytes). x ++ written ps) joined ∙ assoc in
          let go : (write p w).1 ≡ true = fine ∙ rw room refl in
          let rest =
            copy_lem ps w' (omega (arith, cap, short, ap length joined))
              (flag ∙ rw (room, f) refl) in
          rw go (rest.0 ∙ rw (cap, same) refl, rest.1 ∙ rw (cap, same) refl)
    ]

module _ (sha256_hex : Bytes → Bytes) where
  -- `Run` returns the first `MaxStdout` bytes that the child wrote; if it wrote more the error is
  -- the truncation, whatever waiting reported, and if not it is what starting or waiting reported.
  pub run_lem :
      (child : Child)
      → (let out = written (printed child) in
          ((run sha256_hex child).0 ≡ take max_stdout out)
          × (max_stdout < length out
              → (run sha256_hex child).1 ≡ some (classify sha256_hex past_cap child))
          × (length out ≤ max_stdout
              → (run sha256_hex child).1 ≡ classified sha256_hex (run_error child) child))
  unfolding run
  run_lem child =
      let start : CappedWriter = record { buf = []; max = max_stdout; truncated = false } in
      let (bytes, flag) = copy_lem (printed child) start (omega arith) refl in
      let n = length (written (printed child)) in
      (
        bytes,
        λ over. rw (flag ∙ lt→ltb max_stdout n over) refl,
        λ fits. rw (flag ∙ le→not_ltb n fits) refl,
      )
    where
      le→not_ltb : (n : ℕ) → n ≤ max_stdout → ltb max_stdout n ≡ false
      le→not_ltb n h = ground (arith, h)

-- A line feed, a tab, or printable ASCII.
abbrev pub Printable : ℕ → Type 0
Printable c = (c ≡ 10) ⊎ (c ≡ 9) ⊎ ((0x20 ≤ c) × (c < 0x7f))

sanitise_byte-Printable : (c : ℕ) → Printable (sanitise_byte c)
unfolding sanitise_byte
sanitise_byte-Printable c = ground arith

map-Printable : (b : Bytes) → All Printable (map sanitise_byte b)
map-Printable [] = tt
map-Printable (c ∷ b) = (sanitise_byte-Printable c, map-Printable b)

length-map : (b : Bytes) → length (map sanitise_byte b) ≡ length b
length-map [] = refl
length-map (c ∷ b) = ap suc (length-map b)

-- Whatever a child writes to stderr, what leaves the helper has one byte for each of its first 200
-- bytes, each of them printable ASCII, a tab or a line feed.
pub sanitise_stderr_prefix-Printable :
    (b : Bytes)
    → All Printable (sanitise_stderr_prefix b)
      × (length (sanitise_stderr_prefix b) ≡ min stderr_prefix_max (length b))
unfolding sanitise_stderr_prefix
sanitise_stderr_prefix-Printable b =
    let kept = if ltb stderr_prefix_max (length b) then take stderr_prefix_max b else b in
    (
      map-Printable kept,
      length-map kept ∙ elim (Bool-cases (ltb stderr_prefix_max (length b))) [
        | inl over ↦ rw over (length-take stderr_prefix_max b)
        | inr fits ↦ rw fits (ground (arith, fits))
      ],
    )
