-- ===== src/Auth/Names/Dedupe.antt =====
-- The names that `dedupe` gives are told apart by their keys.
use claude_at_work_project.Prelude.{
  ◌∙◌, ap, ◌≡◌, refl, subst, inl, inr, true, false, ◌||◌, some, List, [], ◌∷◌, arith, map, Apart,
  Unique, All, All-map, Bool-cases, if◌then◌else◌,
}
use claude_at_work_project.Shared.Pagination.Ordered.{order_by}
use claude_at_work_project.Messaging.Models.{same_text}
use claude_at_work_project.Auth.Rows.{Uuid}
use claude_at_work_project.Auth.Members.{seated_before}
use claude_at_work_project.Auth.Names.{
  Text, Unicode, NameRow, Named, name_key, is_taken_by, stored_name, mark, rename, dedupe,
}
use claude_at_work_project.Auth.Names.Candidates.{
  same_text_refl, same_text_sound, KeysDiffer, first_free_lem,
}

same_text_apart : (a b : Text) → same_text a b ≡ false → same_text b a ≡ false
same_text_apart a b h = elim (Bool-cases (same_text b a)) [
  | inr e ↦ e
  | inl e ↦ absurd (
      cc (h, subst (λ (c : Text). same_text c b ≡ true) (same_text_sound b a e) (same_text_refl b)))
]

is_taken_by-Apart : (k : Text) (ks : List Text) → Apart same_text k ks → is_taken_by k ks ≡ false
is_taken_by-Apart k [] h = refl
is_taken_by-Apart k (x ∷ xs) h = rw h.0 (is_taken_by-Apart k xs h.1)

-- A text that is not taken differs from one that is.
untaken :
    (new k : Text) (taken : List Text)
    → is_taken_by new taken ≡ false
    → is_taken_by k taken ≡ true
    → same_text new k ≡ false
untaken new k taken free used = elim (Bool-cases (same_text new k)) [
  | inr e ↦ e
  | inl e ↦
      absurd (
        cc (subst (λ (t : Text). is_taken_by t taken ≡ false) (same_text_sound new k e) free, used))
]

untaken-All :
    (new : Text) (ks taken : List Text)
    → is_taken_by new taken ≡ false
    → All (λ k. is_taken_by k taken ≡ true) ks
    → is_taken_by new ks ≡ false
untaken-All new [] taken free h = refl
untaken-All new (k ∷ ks) taken free h =
    rw (untaken new k taken free h.0) (untaken-All new ks taken free h.1)

module _ (u : Unicode) where
  -- The keys of the rows that are no duplicates.
  abbrev kept : List Named → List Text
  kept [] = []
  kept (n ∷ ns) = let rest = kept ns in if n.is_duplicate then rest else name_key u n.name ∷ rest

  abbrev pub keys_of : List (Uuid × Text) → List Text
  keys_of names = map (λ n. name_key u n.1) names

  record IsMarked (reserved : List Text) (after : List Text) (ns : List Named) : Type 0 where
    pub grows : (k : Text) → is_taken_by k reserved ≡ true → is_taken_by k after ≡ true
    pub reserves : All (λ k. is_taken_by k after ≡ true) (kept ns)
    pub distinct : Unique same_text (kept ns)
    pub new : All (λ k. is_taken_by k reserved ≡ false) (kept ns)

  Apart-new :
      (k : Text) (reserved ks : List Text)
      → All (λ q. is_taken_by q (k ∷ reserved) ≡ false) ks
      → Apart same_text k ks
  Apart-new k reserved [] h = tt
  Apart-new k reserved (q ∷ qs) h =
      let other : same_text q k ≡ false = ground (arith, h.0) in
      (same_text_apart q k other, Apart-new k reserved qs h.1)

  mark-IsMarked :
      (reserved : List Text) (rows : List NameRow)
      → IsMarked reserved (mark u reserved rows).0 (mark u reserved rows).1
  unfolding mark
  mark-IsMarked reserved [] = record { grows = λ k e. e; reserves = tt; distinct = tt; new = tt }
  mark-IsMarked reserved (row ∷ rows) =
      let key = name_key u (stored_name u row) in
      elim (Bool-cases (is_taken_by key reserved)) [
        | inl used ↦
            let m = mark-IsMarked reserved rows in
            rw used (record {
              grows = m.grows;
              reserves = m.reserves;
              distinct = m.distinct;
              new = m.new;
            })
        | inr free ↦
            let m = mark-IsMarked (key ∷ reserved) rows in
            rw free (record {
              grows = λ k e. m.grows k (ground (arith, e));
              reserves = (m.grows key (rw (same_text_refl key) refl), m.reserves);
              distinct = (
                Apart-new key reserved (kept (mark u (key ∷ reserved) rows).1) m.new,
                m.distinct,
              );
              new = (
                free,
                All-map (kept (mark u (key ∷ reserved) rows).1) (λ k e. ground (arith, e)) m.new,
              );
            })
      ]

  mark-ids :
      (reserved : List Text) (rows : List NameRow)
      → map (λ (n : Named). n.id) (mark u reserved rows).1 ≡ map (λ (r : NameRow). r.id) rows
  unfolding mark
  mark-ids reserved [] = refl
  mark-ids reserved (row ∷ rows) =
      let key = name_key u (stored_name u row) in
      ap (λ ids. row.id ∷ ids)
        (mark-ids (if is_taken_by key reserved then reserved else key ∷ reserved) rows)

  record IsRenamed (reserved : List Text) (ns : List Named) : Type 0 where
    pub names : List (Uuid × Text)
    pub done : rename u reserved ns ≡ some names
    pub ids : map (λ n. n.0) names ≡ map (λ (n : Named). n.id) ns
    pub distinct : Unique same_text (keys_of names)
    pub apart :
        (q : Text)
        → is_taken_by q reserved ≡ true
        → is_taken_by q (kept ns) ≡ false
        → Apart same_text q (keys_of names)

  rename-IsRenamed :
      (differ : (base : Text) → KeysDiffer u base) (ns : List Named) (reserved : List Text)
      → All (λ k. is_taken_by k reserved ≡ true) (kept ns)
      → Unique same_text (kept ns)
      → IsRenamed reserved ns
  unfolding rename
  rename-IsRenamed differ [] reserved a b = record {
    names = [];
    done = refl;
    ids = refl;
    distinct = tt;
    apart = λ q e f. tt;
  }
  rename-IsRenamed differ (n ∷ ns) reserved a b = elim (Bool-cases n.is_duplicate) [
    | inr first ↦
        let key = name_key u n.name in
        let a' : (is_taken_by key reserved ≡ true)
            × All (λ k. is_taken_by k reserved ≡ true) (kept ns) =
          rw first at a in
        let b' : Apart same_text key (kept ns) × Unique same_text (kept ns) = rw first at b in
        let r = rename-IsRenamed differ ns reserved a'.1 b'.1 in
        record {
          names = (n.id, n.name) ∷ r.names;
          done = rw (first, r.done) refl;
          ids = ap (λ ids. n.id ∷ ids) r.ids;
          distinct = (r.apart key a'.0 (is_taken_by-Apart key (kept ns) b'.0), r.distinct);
          apart = λ q e f.
              let f' : (same_text q key || is_taken_by q (kept ns)) ≡ false = rw first at f in
              (ground (arith, f'), r.apart q e (ground (arith, f')));
        }
    | inl duplicate ↦
        let a' : All (λ k. is_taken_by k reserved ≡ true) (kept ns) = rw duplicate at a in
        let b' : Unique same_text (kept ns) = rw duplicate at b in
        let (name, found, free) = first_free_lem u n.name (differ n.name) reserved in
        let key = name_key u name in
        let r =
          rename-IsRenamed differ ns (key ∷ reserved)
            (All-map (kept ns) (λ k e. ground (arith, e)) a') b' in
        record {
          names = (n.id, name) ∷ r.names;
          done = rw (duplicate, found, r.done) refl;
          ids = ap (λ ids. n.id ∷ ids) r.ids;
          distinct = (
            r.apart key (rw (same_text_refl key) refl) (untaken-All key (kept ns) reserved free a'),
            r.distinct,
          );
          apart = λ q e f.
              let f' : is_taken_by q (kept ns) ≡ false = rw duplicate at f in
              (
                same_text_apart key q (untaken key q reserved free e),
                r.apart q (ground (arith, e)) f',
              );
        }
  ]

-- Where the numbered candidates of a name have different keys, every row gets a name, in the order
-- of the time and the id, and no two of these names have the same key, whatever names the rows had.
pub dedupe-Unique :
    (u : Unicode) (rows : List NameRow)
    → ((base : Text) → KeysDiffer u base)
    → (names : List (Uuid × Text)) × (dedupe u rows ≡ some names)
      × (map (λ n. n.0) names
          ≡ map
              (λ (r : NameRow). r.id)
              (order_by seated_before (λ (r : NameRow). (r.created_at, r.id)) rows))
      × Unique same_text (keys_of u names)
unfolding dedupe
dedupe-Unique u rows differ =
    let ordered = order_by seated_before (λ (r : NameRow). (r.created_at, r.id)) rows in
    let m = mark-IsMarked u [] ordered in
    let r =
      rename-IsRenamed u differ (mark u [] ordered).1 (mark u [] ordered).0 m.reserves m.distinct in
    (r.names, r.done, r.ids ∙ mark-ids u [] ordered, r.distinct)
