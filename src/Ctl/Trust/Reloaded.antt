-- ===== src/Ctl/Trust/Reloaded.antt =====
-- From the command to the node: what `trust block` writes, the node's trust store reads.
use federloom.Prelude.{
  ◌+◌, ◌≤◌, ◌≡◌, refl, ◌∙◌, ap, inl, inr, true, false, Bool-cases, ◌&&◌, ltb, arith, String,
  eq_refl, List, [], ◌∷◌, ◌++◌, ok, contains_string, contains_string-append,
}
use federloom.Float.{Float}
use federloom.Proto.{Time, PeerCert}
use federloom.Identity.{Crypto}
use federloom.Trust.{
  Anchor, FileView, TrustFiles, TrustStore, stat_changed, reload_anchors, reload_certs,
  reload_blocked, maybe_reload, is_blocked,
}
use federloom.Ctl.Trust.{TrustDir, trust_block, save_blocked}

written :
    {F : Type 0} (peer : String) (peers : List String) (dir : TrustDir F)
    → dir.blocked ≡ ok peers
    → (now_blocked : List String) × ((trust_block (peer ∷ []) dir true).1.blocked ≡ ok now_blocked)
      × (contains_string now_blocked peer ≡ true)
unfolding trust_block save_blocked
written peer peers dir there = elim (Bool-cases (contains_string peers peer)) [
  | inl already ↦ (peers, rw (there, trust_block, already) there, already)
  | inr new ↦ (
    peers ++ peer ∷ [],
    rw (there, trust_block, new) refl,
    ground (arith, contains_string-append peers (peer ∷ []) peer, eq_refl peer),
  )
]

module _ {F : Type 0} ⦃f : Float F⦄ (crypto : Crypto) where
  reload_anchors_blocked :
      (file : FileView (Anchor F)) (s : TrustStore F)
      → ((reload_anchors file s).has_blocked_path ≡ s.has_blocked_path)
        × ((reload_anchors file s).blocked_stat ≡ s.blocked_stat)
  unfolding reload_anchors
  reload_anchors_blocked file s = ground arith

  reload_certs_blocked :
      (file : FileView PeerCert) (now : Time) (s : TrustStore F)
      → ((reload_certs crypto file now s).has_blocked_path ≡ s.has_blocked_path)
        × ((reload_certs crypto file now s).blocked_stat ≡ s.blocked_stat)
  unfolding reload_certs
  reload_certs_blocked file now s = ground arith

  reload_blocked_reads :
      (file : FileView String) (peers : List String) (s : TrustStore F)
      → s.has_blocked_path ≡ true
      → (stat_changed file.stat s.blocked_stat).1 ≡ true
      → file.content ≡ ok peers
      → (reload_blocked crypto file s).blocked ≡ peers
  unfolding reload_blocked
  reload_blocked_reads file peers s path changed there =
      rw (path, reload_blocked, changed, there) refl

  -- When the blocked peers can be loaded and an operator blocks a peer, which is saved: a node
  -- whose trust store has a path for that file, whose last check of its files is as long ago as the
  -- interval between two, and which sees the file changed and reads what was written, treats the
  -- peer as blocked.
  pub is_blocked-trust_block :
      (peer : String) (peers : List String) (dir : TrustDir F) (files : TrustFiles F) (now : Time)
      (s : TrustStore F)
      → dir.blocked ≡ ok peers
      → files.blocked.content ≡ (trust_block (peer ∷ []) dir true).1.blocked
      → (stat_changed files.blocked.stat s.blocked_stat).1 ≡ true
      → s.has_blocked_path ≡ true
      → s.last_check + s.reload_every ≤ now
      → (is_blocked crypto files now peer s).1 ≡ true
  unfolding is_blocked maybe_reload
  is_blocked-trust_block peer peers dir files now s there read changed path due =
      let (now_blocked, wrote, in_it) = written peer peers dir there in
      let s1 = reload_anchors files.anchors (record s { last_check = now }) in
      let s2 = reload_certs crypto files.certs now s1 in
      let (path1, stat1) = reload_anchors_blocked files.anchors (record s { last_check = now }) in
      let (path2, stat2) = reload_certs_blocked files.certs now s1 in
      let idle : (s.loaded_once && ltb now (s.last_check + s.reload_every)) ≡ false =
        ground (arith, due) in
      let reads =
        reload_blocked_reads files.blocked now_blocked s2 (path2 ∙ path1 ∙ path)
          (ap (λ st. (stat_changed files.blocked.stat st).1) (stat2 ∙ stat1) ∙ changed)
          (read ∙ wrote) in
      rw (idle, maybe_reload, reads) in_it
