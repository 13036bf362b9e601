-- ===== src/Simulation/Quantities.antt =====
-- The proposed quantity of a security is its baseline and the effects of its changes, in order.
use portfolio_analytics_syst.Prelude.{
  String, Bool, true, false, ◌||◌, Option, none, some, List, [], ◌∷◌, map, ◌≡◌, refl, sym, ap, ◌∙◌,
  arith, inl, inr, Bool-cases, str_eq, str_eq_iff, str_eq_self, str_eq_comm, str_in, if◌then◌else◌,
  is_some,
}
use portfolio_analytics_syst.Prelude.Tables.{find_row, update_rows}
use portfolio_analytics_syst.Prelude.Lookups.{
  find_row-append, find_row-append_none, find_row-update_rows, find_row-test,
}
use portfolio_analytics_syst.Simulation.Sessions.{SimulationChange}
use portfolio_analytics_syst.Simulation.Projection.{
  Floats, InstrumentInfo, BaselineRow, Projected, is_of, change_quantity_effect, not_held,
  baseline_map, add_missing, with_missing, renamed, named, changed_by, apply_changes, projected_map,
}

module _ (floats : Floats) where
  open floats use {Float}

  -- The quantity after the changes of the security, added one after the other.
  unfoldable pub after_changes : String → Float → List SimulationChange → Float
  after_changes id quantity [] = quantity
  after_changes id quantity (c ∷ cs) =
      after_changes id
        (if str_eq c.security_id id
          then floats.add quantity (change_quantity_effect floats c)
          else quantity)
        cs

  abbrev moved : String → List SimulationChange → Projected Float → Projected Float
  moved id cs r = record r { proposed_quantity = after_changes id r.proposed_quantity cs }

  moved_after :
      (id : String) (c : SimulationChange) (cs : List SimulationChange) (r : Projected Float)
      (b : Bool)
      → some (moved id cs (if b then changed_by floats c r else r))
        ≡ some (record r {
          proposed_quantity =
              after_changes id
                (if b
                  then floats.add r.proposed_quantity (change_quantity_effect floats c)
                  else r.proposed_quantity)
                cs;
        })
  moved_after id c cs r true = refl
  moved_after id c cs r false = refl

  add_missing-find :
      (id s : String) (rows : List (Projected Float)) (r : Projected Float)
      (o : Option (Projected Float))
      → find_row (is_of id) rows ≡ some r
      → find_row (is_of id) (add_missing floats s rows o) ≡ some r
  add_missing-find id s rows r none h = find_row-append (is_of id) rows (not_held floats s ∷ []) r h
  add_missing-find id s rows r (some x) h = h

  added :
      (id s : String) (rows : List (Projected Float))
      → id ≡ s
      → (o : Option (Projected Float)) → o ≡ none
      → find_row (is_of id) rows ≡ none
      → find_row (is_of id) (add_missing floats s rows o) ≡ some (not_held floats id)
  unfolding find_row
  added id s rows e none n h =
      find_row-append_none (is_of id) rows (not_held floats s ∷ []) h
      ∙ rw (sym e, str_eq_self id) refl
  added id s rows e (some x) n h = cc

  add_missing-other :
      (id s : String) (rows : List (Projected Float)) (o : Option (Projected Float))
      → find_row (is_of id) rows ≡ none
      → str_eq id s ≡ false
      → find_row (is_of id) (add_missing floats s rows o) ≡ none
  unfolding find_row
  add_missing-other id s rows none h e =
      find_row-append_none (is_of id) rows (not_held floats s ∷ []) h
      ∙ rw (str_eq_comm s id, e) refl
  add_missing-other id s rows (some x) h e = h

  apply_changes-quantity :
      (id : String) (changes : List SimulationChange) (rows : List (Projected Float))
      (r : Projected Float)
      → find_row (is_of id) rows ≡ some r
      → find_row (is_of id) (apply_changes floats changes rows) ≡ some (moved id changes r)
  unfolding apply_changes after_changes
  apply_changes-quantity id [] rows r h = h
  apply_changes-quantity id (c ∷ cs) rows r h =
      let next =
        find_row-update_rows (is_of id) (is_of c.security_id) (changed_by floats c) rows r
          (λ x. refl) h in
      let same : str_eq r.security_id c.security_id ≡ str_eq c.security_id id =
        str_eq_comm r.security_id c.security_id
        ∙ ap (λ (i : String). str_eq c.security_id i)
            ((str_eq_iff r.security_id id).0 (find_row-test (is_of id) rows r h)) in
      apply_changes-quantity id cs (update_rows (is_of c.security_id) (changed_by floats c) rows)
        (if is_of c.security_id r then changed_by floats c r else r) next
      ∙ (moved_after id c cs r (str_eq r.security_id c.security_id)
          ∙ ap
              (λ (b : Bool). some (record r {
                proposed_quantity =
                    after_changes id
                      (if b
                        then floats.add r.proposed_quantity (change_quantity_effect floats c)
                        else r.proposed_quantity)
                      cs;
              }))
              same)

  -- A security that no change names is found as before, and one that a change names is in the map.
  with_missing-find :
      (id : String) (ids : List String) (rows : List (Projected Float)) (r : Projected Float)
      → find_row (is_of id) rows ≡ some r
      → find_row (is_of id) (with_missing floats ids rows) ≡ some r
  unfolding with_missing
  with_missing-find id [] rows r h = h
  with_missing-find id (s ∷ ids) rows r h =
      with_missing-find id ids (add_missing floats s rows (find_row (is_of s) rows)) r
        (add_missing-find id s rows r (find_row (is_of s) rows) h)

  with_missing-new :
      (id : String) (ids : List String) (rows : List (Projected Float))
      → find_row (is_of id) rows ≡ none
      → str_in id ids ≡ true
      → find_row (is_of id) (with_missing floats ids rows) ≡ some (not_held floats id)
  unfolding with_missing str_in
  with_missing-new id [] rows h k = cc
  with_missing-new id (s ∷ ids) rows h k = elim (Bool-cases (str_eq id s)) [
    | inl e ↦
        with_missing-find id ids (add_missing floats s rows (find_row (is_of s) rows))
          (not_held floats id)
          (added id s rows ((str_eq_iff id s).0 e) (find_row (is_of s) rows)
            (ap (λ (i : String). find_row (is_of i) rows) (sym ((str_eq_iff id s).0 e)) ∙ h) h)
    | inr e ↦
        with_missing-new id ids (add_missing floats s rows (find_row (is_of s) rows))
          (add_missing-other id s rows (find_row (is_of s) rows) h e) (ground (arith, k, e))
  ]

  renamed-security_id :
      (o : Option InstrumentInfo) (r : Projected Float)
      → (renamed floats o r).security_id ≡ r.security_id
  renamed-security_id none r = refl
  renamed-security_id (some i) r = refl

  abbrev renamed_too :
      (String → Option InstrumentInfo) → Option (Projected Float) → Option (Projected Float)
  renamed_too instrument_of none = none
  renamed_too instrument_of (some r) = some (named floats instrument_of r)

  chosen :
      (b : Bool) (x r : Projected Float) (rest : Option (Projected Float))
      → b ≡ true
      → (if b then some x else rest) ≡ some r
      → some x ≡ some r
  chosen true x r rest e h = h
  chosen false x r rest e h = cc

  find_row-named :
      (instrument_of : String → Option InstrumentInfo) (id : String) (rows : List (Projected Float))
      (r : Projected Float)
      → find_row (is_of id) rows ≡ some r
      → find_row (is_of id) (map (named floats instrument_of) rows)
        ≡ some (named floats instrument_of r)
  unfolding find_row
  find_row-named instrument_of id [] r h = cc
  find_row-named instrument_of id (x ∷ rows) r h =
      let same = renamed-security_id (instrument_of x.security_id) x in
      elim (Bool-cases (str_eq x.security_id id)) [
        | inl e ↦
            rw (same, e)
              (ap (λ (o : Option (Projected Float)). renamed_too instrument_of o)
                (chosen (str_eq x.security_id id) x r _ e h))
        | inr e ↦ rw (same, e) (find_row-named instrument_of id rows r (ground (arith, h, e)))
      ]

  -- The entry of a security before the changes.
  abbrev pub entry : String → Option (Projected Float) → Projected Float
  entry id none = not_held floats id
  entry id (some r) = r

  with_missing-entry :
      (id : String) (ids : List String) (rows : List (Projected Float))
      (o : Option (Projected Float))
      → find_row (is_of id) rows ≡ o
      → (str_in id ids || is_some o) ≡ true
      → find_row (is_of id) (with_missing floats ids rows) ≡ some (entry id o)
  with_missing-entry id ids rows none h k = with_missing-new id ids rows h (ground (arith, k))
  with_missing-entry id ids rows (some r) h k = with_missing-find id ids rows r h

  -- The entry of a security that is held or that a change names.
  pub projected_map-entry :
      (instrument_of : String → Option InstrumentInfo) (baseline : List BaselineRow)
      (changes : List SimulationChange) (id : String)
      → (str_in id (map (λ (c : SimulationChange). c.security_id) changes)
          || is_some (find_row (is_of id) (baseline_map floats baseline [])))
        ≡ true
      → let before =
          named floats instrument_of
            (entry id (find_row (is_of id) (baseline_map floats baseline []))) in
        find_row (is_of id) (projected_map floats instrument_of baseline changes)
        ≡ some (record before {
          proposed_quantity = after_changes id before.proposed_quantity changes;
        })
  unfolding projected_map
  projected_map-entry instrument_of baseline changes id h =
      let ids = map (λ (c : SimulationChange). c.security_id) changes in
      let rows = baseline_map floats baseline [] in
      let o = find_row (is_of id) rows in
      apply_changes-quantity id changes
        (map (named floats instrument_of) (with_missing floats ids rows))
        (named floats instrument_of (entry id o))
        (find_row-named instrument_of id (with_missing floats ids rows) (entry id o)
          (with_missing-entry id ids rows o refl h))
