-- ===== src/Deliver/Scan.antt =====
-- What the scan of the inflight records finds: each candidate is a record that has expired, those
-- for renewal apart from those for redelivery.
use sq.Common.{
  ℕ, ◌+◌, ◌-◌, ◌≤◌, ◌<◌, ◌≡◌, refl, ◌∙◌, arith, Bool, true, false, ◌||◌, List, [], ◌∷◌, some, ltb,
  leb, ltb→lt, leb→le, Bool-cases, inl, inr, All, length,
}
use sq.Deliver.Table.{Table, lookup, Ascends}
use sq.Deliver.Lease.{Inflight, renewable}
use sq.Deliver.Receive.{Request, Redeliver, Scan, scan_inflight}
use sq.Deliver.Marks.{ordered_at, Free}

-- A record that is due for redelivery, and one that is renewed.
pub record IsRed (r : Request) (now n : ℕ) (t : Table Inflight) (red : Redeliver) : Type 0 where
  pub from : n ≤ red.offset
  pub st : Inflight
  pub found : lookup red.offset t ≡ some st
  pub same_attempts : st.attempts ≡ red.attempts
  pub same_ordered : st.ordered ≡ red.ordered
  pub expired : st.expire_at_ms ≤ now
  pub not_renewed : renewable r.lease st now ≡ false

pub record IsRenewal (r : Request) (now n : ℕ) (t : Table Inflight) (e : ℕ × Inflight)
    : Type 0 where
  pub from : n ≤ e.0
  pub found : lookup e.0 t ≡ some e.1
  pub expired : e.1.expire_at_ms ≤ now
  pub renews : renewable r.lease e.1 now ≡ true

-- The candidates for redelivery come in the order of their offsets, from n on.
abbrev pub RedsAscend : ℕ → List Redeliver → Type 0
RedsAscend n [] = Unit {0}
RedsAscend n (red ∷ reds) = (n ≤ red.offset) × RedsAscend (red.offset + 1) reds

pub RedsAscend-weaken :
    (m n : ℕ) (reds : List Redeliver) → m ≤ n → RedsAscend n reds → RedsAscend m reds
RedsAscend-weaken m n [] h a = tt
RedsAscend-weaken m n (red ∷ reds) h a = (omega arith, a.1)

-- All that the properties use of a scan of the records from offset n on.
pub record Scanned (r : Request) (now room n : ℕ) (t : Table Inflight) (s : Scan) : Type 0 where
  pub reds : All (IsRed r now n t) s.reds
  pub renewals : All (IsRenewal r now n t) s.renews
  pub ascend : RedsAscend n s.reds
  pub fits : length s.reds ≤ room
  pub free : Free s.ordered_busy t

module _ (r : Request) (now : ℕ) where
  lookup-later :
      (k j : ℕ) (st : Inflight) (t : Table Inflight)
      → k + 1 ≤ j
      → lookup j ((k, st) ∷ t) ≡ lookup j t
  unfolding lookup
  lookup-later k j st t h = ground arith

  IsRed-later :
      (n k : ℕ) (st : Inflight) (t : Table Inflight) (reds : List Redeliver)
      → n ≤ k
      → All (IsRed r now (k + 1) t) reds
      → All (IsRed r now n ((k, st) ∷ t)) reds
  IsRed-later n k st t [] h all = tt
  IsRed-later n k st t (red ∷ reds) h (a, rest) = (
    record {
      from = omega (arith, a.from);
      st = a.st;
      found = lookup-later k red.offset st t a.from ∙ a.found;
      same_attempts = a.same_attempts;
      same_ordered = a.same_ordered;
      expired = a.expired;
      not_renewed = a.not_renewed;
    },
    IsRed-later n k st t reds h rest,
  )

  IsRenewal-later :
      (n k : ℕ) (st : Inflight) (t : Table Inflight) (es : List (ℕ × Inflight))
      → n ≤ k
      → All (IsRenewal r now (k + 1) t) es
      → All (IsRenewal r now n ((k, st) ∷ t)) es
  IsRenewal-later n k st t [] h all = tt
  IsRenewal-later n k st t ((j, e) ∷ es) h (a, rest) = (
    record {
      from = omega (arith, a.from);
      found = lookup-later k j st t a.from ∙ a.found;
      expired = a.expired;
      renews = a.renews;
    },
    IsRenewal-later n k st t es h rest,
  )

  Free-later :
      (k : ℕ) (st : Inflight) (t : Table Inflight) (busy : Bool)
      → Free busy t
      → Free (st.ordered || busy) ((k, st) ∷ t)
  unfolding ordered_at lookup
  Free-later k st t busy f h i = ground (arith, f (ground arith) i)

  lookup_head : (k : ℕ) (st : Inflight) (t : Table Inflight) → lookup k ((k, st) ∷ t) ≡ some st
  unfolding lookup
  lookup_head k st t = ground arith

  -- A record that the scan only reads.
  passed :
      (room room' n k : ℕ) (st : Inflight) (t : Table Inflight) (s : Scan)
      → n ≤ k
      → room' ≤ room
      → Scanned r now room' (k + 1) t s
      → Scanned r now room n
          ((k, st) ∷ t)
          (record s { ordered_busy = st.ordered || s.ordered_busy })
  passed room room' n k st t s h fit rest = record {
    reds = IsRed-later n k st t s.reds h rest.reds;
    renewals = IsRenewal-later n k st t s.renews h rest.renewals;
    ascend = RedsAscend-weaken n (k + 1) s.reds (omega arith) rest.ascend;
    fits = omega (arith, rest.fits);
    free = Free-later k st t s.ordered_busy rest.free;
  }

  -- A record that is renewed, and one that is redelivered.
  found_renewal :
      (room n k : ℕ) (st : Inflight) (t : Table Inflight) (s : Scan)
      → n ≤ k
      → st.expire_at_ms ≤ now
      → renewable r.lease st now ≡ true
      → Scanned r now room (k + 1) t s
      → Scanned r now room n
          ((k, st) ∷ t)
          (record s { ordered_busy = st.ordered || s.ordered_busy; renews = (k, st) ∷ s.renews })
  found_renewal room n k st t s h e f rest =
      let p = passed room room n k st t s h (omega arith) rest in
      record {
        reds = p.reds;
        renewals =
            (record { from = h; found = lookup_head k st t; expired = e; renews = f }, p.renewals);
        ascend = p.ascend;
        fits = p.fits;
        free = p.free;
      }

  found_red :
      (room n k : ℕ) (st : Inflight) (t : Table Inflight) (s : Scan)
      → n ≤ k
      → 0 < room
      → st.expire_at_ms ≤ now
      → renewable r.lease st now ≡ false
      → Scanned r now (room - 1) (k + 1) t s
      → Scanned r now room n ((k, st) ∷ t) (record s {
        ordered_busy = st.ordered || s.ordered_busy;
        reds = record { offset = k; attempts = st.attempts; ordered = st.ordered } ∷ s.reds;
      })
  found_red room n k st t s h some_room e f rest =
      let p = passed room (room - 1) n k st t s h (omega arith) rest in
      record {
        reds = (
          record {
            from = h;
            st = st;
            found = lookup_head k st t;
            same_attempts = refl;
            same_ordered = refl;
            expired = e;
            not_renewed = f;
          },
          p.reds,
        );
        renewals = p.renewals;
        ascend = (h, rest.ascend);
        fits = omega (arith, rest.fits);
        free = p.free;
      }

  pub scan_inflight-Scanned :
      (room n : ℕ) (t : Table Inflight)
      → Ascends n t
      → Scanned r now room n t (scan_inflight r now room t)
  unfolding scan_inflight
  scan_inflight-Scanned room n [] a = record {
    reds = tt;
    renewals = tt;
    ascend = tt;
    fits = omega arith;
    free = λ h i. (unfold ordered_at lookup in refl);
  }
  scan_inflight-Scanned room n ((k, st) ∷ t) (h, a) = elim (Bool-cases (leb st.expire_at_ms now)) [
    | inl e ↦ elim (Bool-cases (renewable r.lease st now)) [
      | inl f ↦
          rw (e, f)
            (found_renewal room n k st t _ h (leb→le _ _ e) f
              (scan_inflight-Scanned room (k + 1) t a))
      | inr f ↦ elim (Bool-cases (ltb 0 room)) [
        | inl g ↦
            rw (e, f, g)
              (found_red room n k st t _ h (ltb→lt _ _ g) (leb→le _ _ e) f
                (scan_inflight-Scanned (room - 1) (k + 1) t a))
        | inr g ↦
            rw (e, f, g)
              (passed room (room - 1) n k st t _ h (omega arith)
                (scan_inflight-Scanned (room - 1) (k + 1) t a))
      ]
    ]
    | inr e ↦
        rw e (passed room room n k st t _ h (omega arith) (scan_inflight-Scanned room (k + 1) t a))
  ]
