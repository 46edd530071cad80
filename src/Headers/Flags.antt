-- ===== src/Headers/Flags.antt =====
-- The flag bits of the headers do not disturb one another.
use madaodv_ns.Base.{
  List, [], ◌∷◌, any, ℕ, zero, suc, ◌^◌, ◌<◌, ◌≡◌, refl, Bool, true, false, not, ◌==◌,
  if◌then◌else◌, ◌&&◌, arith, ltb, ◌∙◌,
}
use madaodv_ns.Headers.{
  set_bit, get_bit, RreqHeader, set_gratuitous_rrep, get_gratuitous_rrep, set_destination_only,
  get_destination_only, set_unknown_seqno, get_unknown_seqno,
}

same : Bool → Bool → Bool
same true b = b
same false b = not b

-- The numbers under a limit, from the greatest down.
numbers : ℕ → List ℕ
numbers zero = []
numbers (suc n) = n ∷ numbers n

any-numbers :
    (fails_at : ℕ → Bool) (limit i : ℕ)
    → i < limit
    → any fails_at (numbers limit) ≡ false
    → fails_at i ≡ false
unfolding any numbers
any-numbers fails_at zero i l h = ground arith
any-numbers fails_at (suc limit) i l h = ground (arith, any-numbers fails_at limit i)

-- What a byte must satisfy for bit `j` to be written without touching another bit `i`.
independent : ℕ → ℕ → ℕ → Bool
unfolding same
independent i j x =
    same (get_bit (2 ^ i) (set_bit true (2 ^ j) x)) (if i == j then true else get_bit (2 ^ i) x)
    && (same (get_bit (2 ^ i) (set_bit false (2 ^ j) x))
          (if i == j then false else get_bit (2 ^ i) x)
        && (ltb (set_bit true (2 ^ j) x) 256 && ltb (set_bit false (2 ^ j) x) 256))

conflict : ℕ → ℕ → ℕ → Bool
conflict i j x = not (independent i j x)

no_conflict : any (λ i. any (λ j. any (conflict i j) (numbers 256)) (numbers 8)) (numbers 8) ≡ false
unfolding any numbers conflict independent set_bit get_bit
no_conflict = refl

independent_bits : (i j x : ℕ) → i < 8 → j < 8 → x < 256 → independent i j x ≡ true
unfolding conflict
independent_bits i j x li lj lx =
    let at_i =
      any-numbers (λ k. any (λ j. any (conflict k j) (numbers 256)) (numbers 8)) 8 i li
        no_conflict in
    let at_j = any-numbers (λ k. any (conflict i k) (numbers 256)) 8 j lj at_i in
    ground (arith, any-numbers (conflict i j) 256 x lx at_j)

independent_lem :
    (i j x : ℕ) (f : Bool)
    → independent i j x ≡ true
    → (get_bit (2 ^ i) (set_bit f (2 ^ j) x) ≡ (if i == j then f else get_bit (2 ^ i) x))
      × (set_bit f (2 ^ j) x < 256)
unfolding independent same
independent_lem i j x true h = ground arith
independent_lem i j x false h = ground arith

-- Reading a bit of a byte in which a bit was written, and the range of the result.
pub get_bit-set_bit :
    (i j x : ℕ) (f : Bool)
    → i < 8
    → j < 8
    → x < 256
    → (get_bit (2 ^ i) (set_bit f (2 ^ j) x) ≡ (if i == j then f else get_bit (2 ^ i) x))
      × (set_bit f (2 ^ j) x < 256)
get_bit-set_bit i j x f hi hj hx = independent_lem i j x f (independent_bits i j x hi hj hx)

-- Each flag of a RREQ reads as it was last written, whatever was written to the other two before
-- and after it, and the flags stay one byte, if they
-- were.
rreq_flags_lem :
    (g d u : Bool) (h : RreqHeader)
    → h.flags < 256
    → let h' = set_unknown_seqno u (set_destination_only d (set_gratuitous_rrep g h)) in
      (get_gratuitous_rrep h' ≡ g)
      × (get_destination_only h' ≡ d)
      × (get_unknown_seqno h' ≡ u)
      × (h'.flags < 256)
unfolding set_gratuitous_rrep get_gratuitous_rrep set_destination_only get_destination_only
    set_unknown_seqno get_unknown_seqno
rreq_flags_lem g d u h b =
    let x = set_bit g (2 ^ 5) h.flags in
    let y = set_bit d (2 ^ 4) x in
    let gb = get_bit-set_bit 5 5 h.flags g (omega arith) (omega arith) b in
    let gd = get_bit-set_bit 5 4 x d (omega arith) (omega arith) gb.1 in
    let gu = get_bit-set_bit 5 3 y u (omega arith) (omega arith) gd.1 in
    let dd = get_bit-set_bit 4 4 x d (omega arith) (omega arith) gb.1 in
    let du = get_bit-set_bit 4 3 y u (omega arith) (omega arith) gd.1 in
    let uu = get_bit-set_bit 3 3 y u (omega arith) (omega arith) gd.1 in
    (gu.0 ∙ (gd.0 ∙ gb.0), du.0 ∙ dd.0, uu.0, uu.1)
