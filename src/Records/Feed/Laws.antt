-- ===== src/Records/Feed/Laws.antt =====
-- The history of the feed is a numbered end of all that was published.
use record_hub.Base.{
  ℕ, ◌+◌, ◌≤◌, Text, text_eq, nat_eq, List, [], ◌∷◌, ◌++◌, length, length-append, All, All-append,
  ltb, ◌≡◌, refl, sym, ap, ◌∙◌, arith, Bool-cases, inl, inr,
}
use record_hub.Records.Feed.{RecordChange, RecordFeed, trimmed, appended}

-- The identifiers count on from `n`.
abbrev pub Numbered : ℕ → List RecordChange → Type 0
Numbered n [] = Unit
Numbered n (c ∷ history) = (c.id ≡ n + 1) × Numbered (n + 1) history

Numbered-append :
    (n : ℕ) (history : List RecordChange) (c : RecordChange)
    → Numbered n history
    → c.id ≡ n + length history + 1
    → Numbered n (history ++ (c ∷ []))
Numbered-append n [] c h e = (omega (arith, e), tt)
Numbered-append n (d ∷ history) c h e =
    (h.0, Numbered-append (n + 1) history c h.1 (omega (arith, e)))

append_assoc {ℓ} : {A : Type ℓ} (xs ys zs : List A) → xs ++ (ys ++ zs) ≡ (xs ++ ys) ++ zs
append_assoc [] ys zs = refl
append_assoc (x ∷ xs) ys zs = ap (λ r. x ∷ r) (append_assoc xs ys zs)

-- A history that is the end of `log` within a limit: the identifiers are consecutive, up to `next`;
-- what left has lower ones; and nothing has left an empty history.
pub record Ends (history : List RecordChange) (limit next : ℕ) (log : List RecordChange)
    : Type 0 where
  pub start : ℕ
  pub old : List RecordChange
  pub split : log ≡ old ++ history
  pub old_ids : All (λ c. c.id ≤ start) old
  pub numbered : Numbered start history
  pub counter : next ≡ start + length history
  pub bounded : length history ≤ limit
  pub limited : 1 ≤ limit
  pub kept : history ≡ [] → old ≡ []

-- What holds of a feed whose accepted changes, in order, are `log`.
abbrev pub IsValid : RecordFeed → List RecordChange → Type 0
IsValid feed log = Ends feed.history feed.history_limit feed.next_id log

All-weaker :
    (n m : ℕ) (old : List RecordChange) → n ≤ m → All (λ c. c.id ≤ n) old → All (λ c. c.id ≤ m) old
All-weaker n m [] le a = tt
All-weaker n m (c ∷ old) le a = (omega (arith, a.0, le), All-weaker n m old le a.1)

-- Trimming keeps the end of the log.
trimmed-Ends :
    (limit next start : ℕ) (old history log : List RecordChange) (dedup : List (Text × ℕ))
    → log ≡ old ++ history
    → All (λ c. c.id ≤ start) old
    → Numbered start history
    → next ≡ start + length history
    → length history ≤ limit + 1
    → 1 ≤ length history
    → 1 ≤ limit
    → Ends (trimmed limit history dedup).0 limit next log
trimmed-Ends limit next start old [] log dedup split ids num count len some_ lim =
    absurd (ground arith)
trimmed-Ends limit next start old (c ∷ history) log dedup split ids num count len some_ lim =
    elim (Bool-cases (ltb limit (length (c ∷ history)))) [
      | inl full ↦ rw full (record {
        start = start + 1;
        old = old ++ (c ∷ []);
        split = split ∙ append_assoc old (c ∷ []) history;
        old_ids =
            All-append (λ c. c.id ≤ start + 1) old (c ∷ [])
              (All-weaker start (start + 1) old (ground arith) ids) (ground (arith, num.0), tt);
        numbered = num.1;
        counter = ground (arith, count);
        bounded = ground (arith, len);
        limited = lim;
        kept = λ nil. absurd (ground (arith, full, nil));
      })
      | inr free ↦ rw free (record {
        start = start;
        old = old;
        split = split;
        old_ids = ids;
        numbered = num;
        counter = count;
        bounded = ground (arith, free);
        limited = lim;
        kept = λ nil. absurd cc;
      })
    ]

pub appended-IsValid :
    (f : RecordFeed) (c : RecordChange) (log : List RecordChange)
    → IsValid f log
    → c.id ≡ f.next_id + 1
    → IsValid (appended c f) (log ++ (c ∷ []))
unfolding appended
appended-IsValid f c log v e =
    let len = length-append f.history (c ∷ []) in
    trimmed-Ends f.history_limit c.id v.start v.old (f.history ++ (c ∷ [])) (log ++ (c ∷ []))
      f.dedup (ap (λ x. x ++ (c ∷ [])) v.split ∙ sym (append_assoc v.old f.history (c ∷ [])))
      v.old_ids (Numbered-append v.start f.history c v.numbered (omega (arith, e, v.counter)))
      (omega (arith, e, v.counter, len)) (omega (arith, len, v.bounded)) (omega (arith, len))
      v.limited
