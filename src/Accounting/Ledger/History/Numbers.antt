-- ===== src/Accounting/Ledger/History/Numbers.antt =====
-- Official numbers: within a fiscal year no two entries ever carry the same one.
use ume_pms_v2_backend.Prelude.{
  ℕ, ◌+◌, ◌≡◌, ◌<◌, ◌≢◌, ◌⊎◌, refl, true, false, none, some, some-injective, List, Text, lookup,
  insert, lookup-insert, id_eq, ◌==◌, ==→eq, ==_refl, Bool-cases, inl, inr, if◌then◌else◌,
  false≢true, sym, ◌∙◌, ap, arith,
}
use ume_pms_v2_backend.Accounting.Posting.EntryNo.{seq_of, seq_of-format_entry_no}
use ume_pms_v2_backend.Accounting.Ledger.Types.{
  FiscalYear, JournalEntry, Store, is_booked, find_entry,
}
use ume_pms_v2_backend.Accounting.Ledger.Effects.{Numbering}

-- The number is below the counter of its year.
abbrev pub IsIssued : List (ℕ × FiscalYear) → ℕ → Text → Type 0
IsIssued years fy_id number =
    (fy : FiscalYear) × (lookup fy_id years ≡ some fy) × (seq_of number < fy.next_entry_no)

pub record AreNumbered (s : Store) : Type 0 where
  pub unbooked :
      (j : ℕ) (e : JournalEntry)
      → find_entry j s ≡ some e
      → is_booked e.status ≡ false
      → e.entry_no ≡ none
  pub issued :
      (j : ℕ) (e : JournalEntry) (n : Text)
      → find_entry j s ≡ some e
      → e.entry_no ≡ some n
      → IsIssued s.years e.fiscal_year_id n
  pub unique :
      (j k : ℕ) (e f : JournalEntry) (m n : Text)
      → find_entry j s ≡ some e
      → find_entry k s ≡ some f
      → e.fiscal_year_id ≡ f.fiscal_year_id
      → e.entry_no ≡ some m
      → f.entry_no ≡ some n
      → seq_of m ≡ seq_of n
      → j ≡ k

pub AreNumbered-same :
    (s s' : Store) → AreNumbered s → s'.entries ≡ s.entries → s'.years ≡ s.years → AreNumbered s'
unfolding find_entry
AreNumbered-same s s' a he hy = record {
  unbooked = λ j e f. a.unbooked j e (rw he at f);
  issued = λ j e n f. rw hy (a.issued j e n (rw he at f));
  unique = λ j k e f m n x y. a.unique j k e f m n (rw he at x) (rw he at y);
}

-- An entry found after a write is the one written, or was there before.
find_write :
    (id j : ℕ) (row e : JournalEntry) (s s' : Store)
    → s'.entries ≡ insert id row s.entries
    → find_entry j s' ≡ some e
    → ((id ≡ j) × (row ≡ e)) ⊎ (find_entry j s ≡ some e)
unfolding find_entry
find_write id j row e s s' he f = elim (Bool-cases (id == j)) [
  | inl same ↦
      inl
        (==→eq id j same, some-injective _ _ (rw (he, lookup-insert j id row s.entries, same) at f))
  | inr other ↦ inr (rw (he, lookup-insert j id row s.entries, other) at f)
]

-- A write of an entry with no number.
pub AreNumbered-plain :
    (id : ℕ) (row : JournalEntry) (s s' : Store)
    → AreNumbered s
    → s'.entries ≡ insert id row s.entries
    → s'.years ≡ s.years
    → row.entry_no ≡ none
    → AreNumbered s'
AreNumbered-plain id row s s' a he hy plain = record {
  unbooked = λ j e f b. elim (find_write id j row e s s' he f) [
    | inl (_, same) ↦ rw (← same) plain
    | inr old ↦ a.unbooked j e old b
  ];
  issued = λ j e n f g. elim (find_write id j row e s s' he f) [
    | inl (_, same) ↦ cc (same, plain, g)
    | inr old ↦ rw hy (a.issued j e n old g)
  ];
  unique = λ j k e f m n x y fy p q r. elim (find_write id j row e s s' he x) [
    | inl (_, same) ↦ cc (same, plain, p)
    | inr old ↦ elim (find_write id k row f s s' he y) [
      | inl (_, same') ↦ cc (same', plain, q)
      | inr old' ↦ a.unique j k e f m n old old' fy p q r
    ]
  ];
}

-- A write that keeps the number and the year of an entry that is in the books.
pub AreNumbered-mark :
    (id : ℕ) (row original : JournalEntry) (s s' : Store)
    → AreNumbered s
    → find_entry id s ≡ some original
    → s'.entries ≡ insert id row s.entries
    → s'.years ≡ s.years
    → is_booked row.status ≡ true
    → row.entry_no ≡ original.entry_no
    → row.fiscal_year_id ≡ original.fiscal_year_id
    → AreNumbered s'
AreNumbered-mark id row o s s' a found he hy booked same_no same_year =
    let before : (j : ℕ) (e : JournalEntry)
        → find_entry j s' ≡ some e
        → (d : JournalEntry) × (find_entry j s ≡ some d)
          × (e.entry_no ≡ d.entry_no)
          × (e.fiscal_year_id ≡ d.fiscal_year_id) =
      λ j e f. elim (find_write id j row e s s' he f) [
        | inl (at, same) ↦ (o, rw (← at) found, rw (← same) same_no, rw (← same) same_year)
        | inr old ↦ (e, old, refl, refl)
      ] in
    record {
      unbooked = λ j e f b. elim (find_write id j row e s s' he f) [
        | inl (_, same) ↦ absurd (false≢true (sym (rw (← same) at b) ∙ booked))
        | inr old ↦ a.unbooked j e old b
      ];
      issued = λ j e n f g.
          let (d, old, no', year') = before j e f in
          rw (hy, year') (a.issued j d n old (sym no' ∙ g));
      unique = λ j k e f m n x y fy p q r.
          let (d, old, no1, year1) = before j e x in
          let (d', old', no2, year2) = before k f y in
          a.unique j k d d' m n old old' (sym year1 ∙ (fy ∙ year2)) (sym no1 ∙ p) (sym no2 ∙ q) r;
    }

-- A write of an entry with the next number of its year, the counter moved on.
module _ (id fy_id journal_id : ℕ) (number : Text) (row : JournalEntry) (s t s' : Store)
    (a : AreNumbered s) (numbering : Numbering s fy_id journal_id number t)
    (he : s'.entries ≡ insert id row s.entries) (hy : s'.years ≡ t.years)
    (booked : is_booked row.status ≡ true) (numbered : row.entry_no ≡ some number)
    (year : row.fiscal_year_id ≡ fy_id) where
  seq_is : seq_of number ≡ numbering.fy.next_entry_no
  seq_is = seq_of-format_entry_no _ _ _ numbering.formatted

  moved_on : FiscalYear
  moved_on = let fy = numbering.fy in record fy { next_entry_no = fy.next_entry_no + 1 }

  years_after :
      (k : ℕ) → lookup k s'.years ≡ (if fy_id == k then some moved_on else lookup k s.years)
  unfolding moved_on
  years_after k = rw (hy, numbering.written, lookup-insert k fy_id moved_on s.years)

  still-IsIssued : (k : ℕ) (n : Text) → IsIssued s.years k n → IsIssued s'.years k n
  unfolding moved_on
  still-IsIssued k n (fy, found, below) = elim (Bool-cases (fy_id == k)) [
    | inl same ↦
        let is_fy : numbering.fy ≡ fy = cc (numbering.found, found, ==→eq fy_id k same) in
        (moved_on, years_after k ∙ rw same, omega (arith, ap FiscalYear.next_entry_no is_fy))
    | inr other ↦ (fy, years_after k ∙ rw other found, below)
  ]

  -- No entry of the year has the new number yet.
  is_new :
      (e : JournalEntry) (j : ℕ) (n : Text)
      → find_entry j s ≡ some e
      → e.fiscal_year_id ≡ fy_id
      → e.entry_no ≡ some n
      → seq_of n ≢ seq_of number
  is_new e j n f y g same =
      let (fy, found, below) = a.issued j e n f g in
      let is_fy : numbering.fy ≡ fy = cc (numbering.found, found, y) in
      omega (arith, ap FiscalYear.next_entry_no is_fy, seq_is)

  pub AreNumbered-next : AreNumbered s'
  unfolding moved_on
  AreNumbered-next = record {
    unbooked = λ j e f b. elim (find_write id j row e s s' he f) [
      | inl (_, same) ↦ absurd (false≢true (sym (rw (← same) at b) ∙ booked))
      | inr old ↦ a.unbooked j e old b
    ];
    issued = λ j e n f g. elim (find_write id j row e s s' he f) [
      | inl (_, same) ↦
          let is_number : number ≡ n = cc (same, numbered, g) in
          (
            moved_on,
            rw (← same, year) (years_after fy_id ∙ rw (==_refl fy_id)),
            omega (arith, seq_is, ap seq_of is_number),
          )
      | inr old ↦ still-IsIssued e.fiscal_year_id n (a.issued j e n old g)
    ];
    unique = λ j k e f m n x y fy p q r. elim (find_write id j row e s s' he x) [
      | inl (at, same) ↦ elim (find_write id k row f s s' he y) [
        | inl (at', _) ↦ sym at ∙ at'
        | inr old' ↦
            let is_number : number ≡ m = cc (same, numbered, p) in
            absurd
              (is_new f k n old' (sym fy ∙ rw (← same) year) q (sym r ∙ sym (ap seq_of is_number)))
      ]
      | inr old ↦ elim (find_write id k row f s s' he y) [
        | inl (_, same') ↦
            let is_number : number ≡ n = cc (same', numbered, q) in
            absurd (is_new e j m old (fy ∙ rw (← same') year) p (r ∙ sym (ap seq_of is_number)))
        | inr old' ↦ a.unique j k e f m n old old' fy p q r
      ]
    ];
  }
