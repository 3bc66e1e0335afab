-- ===== src/Htab/Delete.antt =====
-- dt_htab_delete() takes one entry out, and the bucket with it where that was the last one.
use dtrace.Base.{
  ◌+◌, ◌-◌, ◌≤◌, ◌<◌, ◌≡◌, refl, sym, ◌∙◌, ◌≢◌, Bool, true, Option, none, some, List, [], arith,
  if◌then◌else◌, length, set, length-set, get_or, total-set,
}
use dtrace.Htab.{Ops, Bucket, Htab, Status, done, enoent, lookup, del_from, delete}
use dtrace.Htab.Head.{IsLawful, contains, erase}
use dtrace.Htab.Chain.{held, find_head-none, find_head-ne_nil}
use dtrace.Htab.Removal.{RemovedFrom, RemoveResult, absent, removed, del_from-RemoveResult}
use dtrace.Htab.Slots.{home, IsValid, home-lt, IsPlaced-set, view-set}

module _ {ℓ} {E : Type ℓ} (ops : Ops E) (law : IsLawful ops) where
  open law use {same, ident}

  pub data Deleted (h : Htab E) (e : E) : Status × Htab E → Type ℓ where
    missing : lookup ops h e ≡ [] → Deleted h e (enoent, h)
    deleted :
        {h' : Htab E}
        → IsValid ops law h'
        → ((q : E)
            → lookup ops h' q
              ≡ (if same e q then erase ident (lookup ops h q) e else lookup ops h q))
        → h'.nentries + 1 ≡ h.nentries
        → h'.nbuckets ≤ h.nbuckets
        → Deleted h e (done, h')

  module _ (h : Htab E) (e : E) (valid : IsValid ops law h) where
    Deleted-slot :
        (freed : Bool) (c : List (Bucket E))
        → RemovedFrom ops law h.mask
            (home ops law h.mask e)
            (get_or h.tab (home ops law h.mask e) [])
            e
            freed
            c
        → Deleted h e (
          done,
          record h {
            tab = set h.tab (home ops law h.mask e) c;
            nentries = h.nentries - 1;
            nbuckets = if freed then h.nbuckets - 1 else h.nbuckets;
          },
        )
    unfolding lookup
    Deleted-slot freed c t =
        let idx = home ops law h.mask e in
        let inside : idx < length h.tab =
          home-lt ops law h.mask e (length h.tab) (omega (arith, valid.size, valid.mask)) in
        let entries = total-set (held ops law) h.tab idx c [] inside in
        let buckets = total-set length h.tab idx c [] inside in
        deleted
          (record {
            size = valid.size ∙ sym (length-set h.tab idx c);
            mask = valid.mask;
            placed =
                IsPlaced-set ops law h.mask h.tab valid.placed idx inside c t.slot
                  (λ q. omega (arith, t.matches_less q, valid.placed.once idx q));
            nbuckets = ground (arith, valid.nbuckets, t.length_less, buckets);
            nentries = omega (arith, valid.nentries, t.held_less, entries);
          })
          (view-set ops law h.mask h.tab valid.placed idx inside e (λ l. erase ident l e) c refl
            t.finds)
          (omega (arith, valid.nentries, t.held_less, entries)) (ground arith)

  -- dt_htab_delete() on a valid table, of an entry that is in the table if one equal to it is,
  -- returns -ENOENT and changes nothing if none is equal to it, and else 0 and a valid table with
  -- one entry fewer, no more buckets, that entry gone from those equal to it and every other lookup
  -- as before.
  pub delete-Deleted :
      (h : Htab E) (e : E)
      → IsValid ops law h
      → (lookup ops h e ≢ [] → contains ident (lookup ops h e) e ≡ true)
      → Deleted h e (delete ops h e)
  unfolding delete lookup
  delete-Deleted h e valid there = go (del_from ops (get_or h.tab (home ops law h.mask e) []) e) (
      del_from-RemoveResult ops law h.mask (home ops law h.mask e)
        (get_or h.tab (home ops law h.mask e) []) e (valid.placed.slots _) (valid.placed.once _ e)
        (λ p. there (find_head-ne_nil ops law h.mask _ e _ (valid.placed.slots _) p)))
    where
      go :
          (o : Option (Bool × List (Bucket E)))
          → RemoveResult ops law h.mask
              (home ops law h.mask e)
              (get_or h.tab (home ops law h.mask e) [])
              e
              o
          → Deleted h e (elim o [
            | none ↦ (enoent, h)
            | some (freed, chain) ↦ (
              done,
              record h {
                tab = set h.tab (home ops law h.mask e) chain;
                nentries = h.nentries - 1;
                nbuckets = if freed then h.nbuckets - 1 else h.nbuckets;
              },
            )
          ])
      go none (absent z) = missing (find_head-none ops law e _ z)
      go (some p) (removed t) = Deleted-slot h e valid p.0 p.1 t
