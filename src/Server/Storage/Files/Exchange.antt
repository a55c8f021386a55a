-- ===== src/Server/Storage/Files/Exchange.antt =====
-- `rename_exchange` of server/src/storage.rs: three renamings over a name of its own.
use remote_file_system.Prelude.{◌≡◌, ◌≢◌, sym, ap, ◌∙◌, none, some, List}
use remote_file_system.Paths.{FilePath, text, with_extension}
use remote_file_system.Action.{ok, bind-ok}
use remote_file_system.Server.Disk.{Disk, done, call, call-ok}
use remote_file_system.Server.Disk.Laws.{Renames, Avoids}
use remote_file_system.Server.Storage.Files.{rename_exchange}

-- The name that the exchange uses.
abbrev pub tmp_of : FilePath → FilePath
tmp_of = with_extension (text ".swap_tmp")

-- A walk passes through none of the three places.
abbrev pub AvoidsAll : {P : Type 0} → List P → P → P → P → Type 0
AvoidsAll via pa pb pt = Avoids via pa × Avoids via pb × Avoids via pt

module _ (disk : Disk) (laws : Renames disk) where
  -- Where the path leads, by places that the exchange of three others does not touch.
  pub record LeadsTo (path : FilePath) (p pa pb pt : laws.Place) (w : disk.World) : Type 0 where
    pub via : List laws.Place
    pub walks : laws.walk path w ≡ some (via, p)
    pub avoids : AvoidsAll via pa pb pt

  -- One of the renamings of the exchange, between two of the places.
  leads_on :
      (old new path : FilePath) (p q r pa pb pt : laws.Place) (w w' : disk.World)
      → disk.rename old new w ≡ (done tt, w')
      → (from : LeadsTo old p pa pb pt w) → (to : LeadsTo new q pa pb pt w)
      → (here : LeadsTo path r pa pb pt w) → Avoids here.via p
      → Avoids here.via q
      → LeadsTo path r pa pb pt w'
  leads_on old new path p q r pa pb pt w w' h from to here not_p not_q = record {
    via = here.via;
    walks =
        laws.leads old new path from.via to.via here.via p q r w w' h from.walks to.walks here.walks
          not_p not_q;
    avoids = here.avoids;
  }

  moved :
      (old new : FilePath) (p q pa pb pt : laws.Place) (w w' : disk.World)
      → disk.rename old new w ≡ (done tt, w')
      → LeadsTo old p pa pb pt w
      → LeadsTo new q pa pb pt w
      → laws.held p w ≢ laws.held q w
      → (laws.held q w' ≡ laws.held p w) × (laws.held p w' ≡ none)
  moved old new p q pa pb pt w w' h from to differ =
      laws.moves old new from.via to.via p q w w' h from.walks to.walks differ

  -- A renaming to a place where there is nothing.
  moved_to_free :
      (old new : FilePath) (p q pa pb pt : laws.Place) (w w' : disk.World)
      → disk.rename old new w ≡ (done tt, w')
      → LeadsTo old p pa pb pt w
      → LeadsTo new q pa pb pt w
      → laws.held q w ≡ none
      → (laws.held q w' ≡ laws.held p w) × (laws.held p w' ≡ none)
  moved_to_free old new p q pa pb pt w w' h from to free =
      moved old new p q pa pb pt w w' h from to
        (λ same. laws.found old new from.via p w w' h from.walks (same ∙ free))

  kept :
      (old new : FilePath) (p q other pa pb pt : laws.Place) (w w' : disk.World)
      → disk.rename old new w ≡ (done tt, w')
      → LeadsTo old p pa pb pt w
      → LeadsTo new q pa pb pt w
      → other ≢ p
      → other ≢ q
      → laws.held other w' ≡ laws.held other w
  kept old new p q other pa pb pt w w' h from to =
      laws.keeps old new from.via to.via p q other w w' h from.walks to.walks

  -- An exchange that succeeds, of two paths that lead to different places, neither of them the one of the
  -- name that the exchange uses, where no path leads through one of the three places and the name is
  -- no link of the first file: at each place there is then what was at the other, nothing is at that of
  -- the name, and the paths lead where they led.
  pub rename_exchange_swaps :
      (a b : FilePath) (pa pb pt : laws.Place) (w w' : disk.World)
      → LeadsTo a pa pa pb pt w
      → LeadsTo b pb pa pb pt w
      → LeadsTo (tmp_of a) pt pa pb pt w
      → pa ≢ pb
      → pt ≢ pb
      → laws.held pa w ≢ laws.held pt w
      → rename_exchange disk a b w ≡ (ok tt, w')
      → (laws.held pa w' ≡ laws.held pb w)
        × (laws.held pb w' ≡ laws.held pa w)
        × (laws.held pt w' ≡ none)
        × LeadsTo a pa pa pb pt w'
        × LeadsTo b pb pa pb pt w'
  unfolding rename_exchange
  rename_exchange_swaps a b pa pb pt w w' la lb lt ab tb differ h =
      let t = tmp_of a in
      let ta : pt ≢ pa = λ e. differ (ap (λ p. laws.held p w) (sym e)) in
      let (_, w1, h1, r1) = bind-ok (call (disk.rename a t)) _ w w' tt h in
      let (_, w2, h2, h3) = bind-ok (call (disk.rename b a)) _ w1 w' tt r1 in
      let d1 = call-ok (disk.rename a t) w w1 tt h1 in
      let d2 = call-ok (disk.rename b a) w1 w2 tt h2 in
      let d3 = call-ok (disk.rename t b) w2 w' tt h3 in
      let (to_t, gone_a) = moved a t pa pt pa pb pt w w1 d1 la lt differ in
      let kept_b = kept a t pa pt pb pa pb pt w w1 d1 la lt (λ e. ab (sym e)) (λ e. tb (sym e)) in
      let la1 = leads_on a t a pa pt pa pa pb pt w w1 d1 la lt la la.avoids.0 la.avoids.2 in
      let lb1 = leads_on a t b pa pt pb pa pb pt w w1 d1 la lt lb lb.avoids.0 lb.avoids.2 in
      let lt1 = leads_on a t t pa pt pt pa pb pt w w1 d1 la lt lt lt.avoids.0 lt.avoids.2 in
      let (to_a, gone_b) = moved_to_free b a pb pa pa pb pt w1 w2 d2 lb1 la1 gone_a in
      let kept_t = kept b a pb pa pt pa pb pt w1 w2 d2 lb1 la1 tb ta in
      let la2 = leads_on b a a pb pa pa pa pb pt w1 w2 d2 lb1 la1 la1 la1.avoids.1 la1.avoids.0 in
      let lb2 = leads_on b a b pb pa pb pa pb pt w1 w2 d2 lb1 la1 lb1 lb1.avoids.1 lb1.avoids.0 in
      let lt2 = leads_on b a t pb pa pt pa pb pt w1 w2 d2 lb1 la1 lt1 lt1.avoids.1 lt1.avoids.0 in
      let (to_b, gone_t) = moved_to_free t b pt pb pa pb pt w2 w' d3 lt2 lb2 gone_b in
      let kept_a = kept t b pt pb pa pa pb pt w2 w' d3 lt2 lb2 (λ e. ta (sym e)) ab in
      (
        kept_a ∙ to_a ∙ kept_b,
        to_b ∙ kept_t ∙ to_t,
        gone_t,
        leads_on t b a pt pb pa pa pb pt w2 w' d3 lt2 lb2 la2 la2.avoids.2 la2.avoids.1,
        leads_on t b b pt pb pb pa pb pt w2 w' d3 lt2 lb2 lb2 lb2.avoids.2 lb2.avoids.1,
      )
