-- ===== src/Ui/Site/Identity.antt =====
-- What the button `Apply` of src/ui/SitePanel.cpp makes of the three texts.
use site_sim.Base.{
  ℕ, ◌%◌, ◌^◌, ◌<◌, ◌≡◌, refl, sym, subst, ◌∙◌, bit_and, Option, none, some, Option-cases, inl, inr,
  arith,
}
use site_sim.Bits.{bit_and_mask}
use site_sim.Tx.Control.{SiteConfig}
use site_sim.Ui.Site.Store.{Json, load_config}
use site_sim.Ui.Site.{Panel, Hex, new_panel, apply_identity}
use site_sim.Ui.Site.Fields.{IsPlan}

masked : (n : ℕ) → bit_and (n % 2 ^ 16) 0xFFF ≡ n % 2 ^ 12
masked n = omega (arith, bit_and_mask 12 (n % 2 ^ 16))

masked_long : (n : ℕ) → bit_and (n % 2 ^ 32) 0xFFFFF ≡ n % 2 ^ 20
masked_long n = omega (arith, bit_and_mask 20 (n % 2 ^ 32))

-- A member of so many bits that takes the number of a text, if there is one.
abbrev pub taken : ℕ → Option ℕ → ℕ → ℕ
taken width none old = old
taken width (some n) old = n % 2 ^ width

-- What is reached only if something went before.
abbrev pub after : Option ℕ → Option ℕ → Option ℕ
after none o = none
after (some n) o = o

taken_below_12 : (o : Option ℕ) (old : ℕ) → old < 2 ^ 12 → taken 12 o old < 2 ^ 12
taken_below_12 none old h = h
taken_below_12 (some n) old h = omega arith

taken_below_20 : (o : Option ℕ) (old : ℕ) → old < 2 ^ 20 → taken 20 o old < 2 ^ 20
taken_below_20 none old h = h
taken_below_20 (some n) old h = omega arith

taken_back_12 : (o : Option ℕ) (old : ℕ) → old < 2 ^ 12 → o ≡ some old → taken 12 o old ≡ old
taken_back_12 o old h e = rw e (omega arith)

taken_back_20 : (o : Option ℕ) (old : ℕ) → old < 2 ^ 20 → o ≡ some old → taken 20 o old ≡ old
taken_back_20 o old h e = rw e (omega arith)

-- The configuration with other identifiers.
abbrev with_identity : {Double : Type 0} → ℕ → ℕ → ℕ → SiteConfig Double → SiteConfig Double
with_identity n w s cfg = record cfg { nac = n; wacn = w; sysid = s }

with_identity-IsPlan :
    {Double : Type 0} (n w s : ℕ) (cfg : SiteConfig Double)
    → IsPlan cfg
    → n < 2 ^ 12
    → w < 2 ^ 20
    → s < 2 ^ 12
    → IsPlan (with_identity n w s cfg)
with_identity-IsPlan n w s cfg is hn hw hs = record {
  nac = hn;
  wacn = hw;
  sysid = hs;
  rfssid = is.rfssid;
  siteid = is.siteid;
  chan_id = is.chan_id;
  ch_spac_min = is.ch_spac_min;
  ch_spac_max = is.ch_spac_max;
  v_chan_num = is.v_chan_num;
}

with_identity_same :
    {Double : Type 0} (n w s : ℕ) (cfg : SiteConfig Double)
    → n ≡ cfg.nac
    → w ≡ cfg.wacn
    → s ≡ cfg.sysid
    → with_identity n w s cfg ≡ cfg
with_identity_same n w s cfg hn hw hs = λ i. record cfg { nac = hn i; wacn = hw i; sysid = hs i }

after-some : (o : Option ℕ) (n : ℕ) (next : Option ℕ) → o ≡ some n → after o next ≡ next
after-some o n next e = rw e refl

module _ {Text Double : Type 0} (hex : Hex Text) where
  -- `Apply` takes the low 12 bits of the NAC's text, then the low 20 bits of the WACN's, then the low 12
  -- bits of the SYSID's, up to the first text that does not convert: the later members stay as they
  -- are, even where their own text converts. No other member changes.
  pub apply_identity_lem :
      (p : Panel Text Double)
      → apply_identity hex p ≡ record p.cfg {
        nac = taken 12 (hex.stoul p.nac_buf) p.cfg.nac;
        wacn = taken 20 (after (hex.stoul p.nac_buf) (hex.stoul p.wacn_buf)) p.cfg.wacn;
        sysid =
            taken 12
              (after (hex.stoul p.nac_buf) (after (hex.stoul p.wacn_buf) (hex.stoul p.sysid_buf)))
              p.cfg.sysid;
      }
  unfolding apply_identity
  apply_identity_lem p = elim (Option-cases (hex.stoul p.nac_buf)) [
    | inl a ↦ rw (a, apply_identity) refl
    | inr (n, a) ↦ elim (Option-cases (hex.stoul p.wacn_buf)) [
      | inl b ↦ rw (a, apply_identity, b, masked n) refl
      | inr (w, b) ↦ elim (Option-cases (hex.stoul p.sysid_buf)) [
        | inl c ↦ rw (a, apply_identity, b, c, masked n, masked_long w) refl
        | inr (s, c) ↦ rw (a, apply_identity, b, c, masked n, masked_long w, masked s) refl
      ]
    ]
  ]

  pub apply_identity-IsPlan : (p : Panel Text Double) → IsPlan p.cfg → IsPlan (apply_identity hex p)
  apply_identity-IsPlan p is = subst IsPlan (sym (apply_identity_lem p)) (
      with_identity-IsPlan _ _ _ p.cfg is (taken_below_12 (hex.stoul p.nac_buf) p.cfg.nac is.nac)
        (taken_below_20 (after (hex.stoul p.nac_buf) (hex.stoul p.wacn_buf)) p.cfg.wacn is.wacn)
        (taken_below_12
          (after (hex.stoul p.nac_buf) (after (hex.stoul p.wacn_buf) (hex.stoul p.sysid_buf)))
          p.cfg.sysid is.sysid))

  -- In a panel that has just been made, with identifiers in range whose texts convert back, `Apply`
  -- leaves every member as it was loaded.
  pub apply_identity-new_panel :
      {Value : Type 0} (json : Json Value Text Double) (file : Option Text)
      (initial : SiteConfig Double)
      → IsPlan (load_config json file initial)
      → ((n : ℕ) → hex.stoul (hex.print n) ≡ some n)
      → apply_identity hex (new_panel hex json file initial) ≡ load_config json file initial
  unfolding new_panel
  apply_identity-new_panel json file initial is back =
      let p = new_panel hex json file initial in
      let c = load_config json file initial in
      let wacn_reached =
        after-some (hex.stoul (hex.print c.nac)) c.nac (hex.stoul (hex.print c.wacn))
          (back c.nac) in
      let sysid_reached =
        after-some (hex.stoul (hex.print c.nac)) c.nac _ (back c.nac)
        ∙ after-some (hex.stoul (hex.print c.wacn)) c.wacn (hex.stoul (hex.print c.sysid))
            (back c.wacn) in
      apply_identity_lem p
      ∙ with_identity_same _ _ _ c (taken_back_12 _ c.nac is.nac (back c.nac))
          (taken_back_20 _ c.wacn is.wacn (wacn_reached ∙ back c.wacn))
          (taken_back_12 _ c.sysid is.sysid (sysid_reached ∙ back c.sysid))
