-- ===== src/Daemon/Controller/Resync.antt =====
-- What a resync of daemon/pkg/controller/resync.go brings into the index.
use yaghan.Base.{
  ℕ, zero, suc, ◌≡◌, ◌≢◌, refl, sym, ◌∙◌, List, [], ◌∷◌, none, some, if◌then◌else◌, Bool-cases,
  Option-cases, inl, inr,
}
use mathlib.Core.Path.{subst}
use yaghan.Base.Text.{Text, text_beq}
use yaghan.Proto.{Sandbox}
use yaghan.Daemon.Indexer.{put, Holds, Advances, put-Holds, put-unchanged}
use yaghan.Daemon.Controller.{
  Outside, Controller, Page, observe, index_page, resync_pages, resync, resync_max_pages,
}
use yaghan.Daemon.Controller.Progress.{index_page-Advances, resync_pages-Advances}

-- Where a sandbox stands in a list, and in a list of pages.
pub data Among (sb : Sandbox) : List Sandbox → Type 0 where
  first : {more : List Sandbox} → Among sb (sb ∷ more)
  later : {other : Sandbox} {more : List Sandbox} → Among sb more → Among sb (other ∷ more)

pub data Listed (sb : Sandbox) : List Page → Type 0 where
  on_page : {p : Page} {more : List Page} → Among sb p.sandboxes → Listed sb (p ∷ more)
  on_later : {p : Page} {more : List Page} → Listed sb more → Listed sb (p ∷ more)

module _ (outside : Outside) (max_retries : ℕ) where
  open outside use {World, list_sandboxes}

  abbrev State : Type 0
  State = Controller outside max_retries

  -- The pages that the api-server gives to a client that follows its tokens: at most so many, up to
  -- the first error or the first empty token.
  unfoldable pub listing : ℕ → Text → World → List Page
  listing zero token w = []
  listing (suc pages) token w =
      let r = list_sandboxes token w in
      elim r.1 [
        | none ↦ []
        | some page ↦
            let rest = listing pages page.continuation_token r.0 in
            page ∷ (if text_beq page.continuation_token [] then [] else rest)
      ]

  observe-Holds :
      (sb : Sandbox) (c : State)
      → sb.metadata.id ≢ []
      → Holds (observe outside max_retries sb c).indexer sb.metadata.id sb.metadata.version
  unfolding observe
  observe-Holds sb c named = elim (Bool-cases (put sb c.indexer).1) [
    | inl e ↦ rw e (put-Holds sb c.indexer named)
    | inr e ↦ rw e (
        subst (λ i. Holds i sb.metadata.id sb.metadata.version) (put-unchanged sb c.indexer e)
          (put-Holds sb c.indexer named))
  ]

  observe-world : (sb : Sandbox) (c : State) → (observe outside max_retries sb c).world ≡ c.world
  unfolding observe
  observe-world sb c = elim (Bool-cases (put sb c.indexer).1) [
    | inl e ↦ rw e refl
    | inr e ↦ rw e refl
  ]

  index_page-world :
      (page : List Sandbox) (c : State) → (index_page outside max_retries page c).world ≡ c.world
  unfolding index_page
  index_page-world [] c = refl
  index_page-world (sb ∷ page) c = elim (Option-cases sb.intent) [
    | inl e ↦ rw (index_page, e) (index_page-world page c)
    | inr (i, e) ↦
        rw (index_page, e)
          (index_page-world page (observe outside max_retries sb c) ∙ observe-world sb c)
  ]

  index_page-Holds :
      (sb : Sandbox) (page : List Sandbox) (c : State)
      → Among sb page
      → sb.intent ≢ none
      → sb.metadata.id ≢ []
      → Holds (index_page outside max_retries page c).indexer sb.metadata.id sb.metadata.version
  unfolding index_page Advances
  index_page-Holds sb page c at wanted named = go page c at
    where
      go :
          (page : List Sandbox) (c : State)
          → Among sb page
          → Holds (index_page outside max_retries page c).indexer sb.metadata.id sb.metadata.version
      go [] c at = elim at [ ]
      go (sb ∷ more) c first = elim (Option-cases sb.intent) [
        | inl e ↦ elim (wanted e) [ ]
        | inr (i, e) ↦
            rw (index_page, e)
              (index_page-Advances outside max_retries more (observe outside max_retries sb c)
                sb.metadata.id sb.metadata.version (observe-Holds sb c named))
      ]
      go (other ∷ more) c (later at) = elim (Option-cases other.intent) [
        | inl e ↦ rw (index_page, e) (go more c at)
        | inr (i, e) ↦ rw (index_page, e) (go more (observe outside max_retries other c) at)
      ]

  listing_stops :
      (pages : ℕ) (token : Text) (w : World)
      → (list_sandboxes token w).1 ≡ none
      → listing (suc pages) token w ≡ []
  unfolding listing
  listing_stops pages token w e = rw (listing, e) refl

  listing_goes_on :
      (pages : ℕ) (token : Text) (w : World) (page : Page)
      → (list_sandboxes token w).1 ≡ some page
      → listing (suc pages) token w
        ≡ page
          ∷ (if text_beq page.continuation_token []
              then []
              else listing pages page.continuation_token (list_sandboxes token w).0)
  unfolding listing
  listing_goes_on pages token w page e = rw (listing, e) refl

  resync_pages-Holds :
      (sb : Sandbox) (pages : ℕ) (token : Text) (c : State)
      → Listed sb (listing pages token c.world)
      → sb.intent ≢ none
      → sb.metadata.id ≢ []
      → Holds
          (resync_pages outside max_retries pages token c).indexer
          sb.metadata.id
          sb.metadata.version
  unfolding resync_pages listing Advances
  resync_pages-Holds sb zero token c at wanted named = elim at [ ]
  resync_pages-Holds sb (suc pages) token c at wanted named =
      elim (Option-cases (list_sandboxes token c.world).1) [
        | inl e ↦ elim (subst (Listed sb) (listing_stops pages token c.world e) at) [ ]
        | inr (page, e) ↦
            found page
              (λ d there. resync_pages-Holds sb pages page.continuation_token d there wanted named)
              e (subst (Listed sb) (listing_goes_on pages token c.world page e) at)
      ]
    where
      here : State
      here = record c { world = (list_sandboxes token c.world).0 }

      on_last :
          (page : Page)
          → Listed sb (page ∷ [])
          → Holds
              (index_page outside max_retries page.sandboxes here).indexer
              sb.metadata.id
              sb.metadata.version
      on_last page (on_page at) = index_page-Holds sb page.sandboxes here at wanted named
      on_last page (on_later at) = elim at [ ]

      on_more :
          (page : Page)
          → ((d : State)
              → Listed sb (listing pages page.continuation_token d.world)
              → Holds
                  (resync_pages outside max_retries pages page.continuation_token d).indexer
                  sb.metadata.id
                  sb.metadata.version)
          → Listed sb (page ∷ listing pages page.continuation_token here.world)
          → Holds
              (resync_pages outside max_retries pages page.continuation_token
                (index_page outside max_retries page.sandboxes here)).indexer
              sb.metadata.id
              sb.metadata.version
      on_more page rest (on_page at) =
          resync_pages-Advances outside max_retries pages page.continuation_token
            (index_page outside max_retries page.sandboxes here) sb.metadata.id sb.metadata.version
            (index_page-Holds sb page.sandboxes here at wanted named)
      on_more page rest (on_later at) = rest (index_page outside max_retries page.sandboxes here) (
          subst (λ w. Listed sb (listing pages page.continuation_token w))
            (sym (index_page-world page.sandboxes here)) at)

      found :
          (page : Page)
          → ((d : State)
              → Listed sb (listing pages page.continuation_token d.world)
              → Holds
                  (resync_pages outside max_retries pages page.continuation_token d).indexer
                  sb.metadata.id
                  sb.metadata.version)
          → (list_sandboxes token c.world).1 ≡ some page
          → Listed sb (
              page
              ∷ (if text_beq page.continuation_token []
                  then []
                  else listing pages page.continuation_token (list_sandboxes token c.world).0))
          → Holds
              (resync_pages outside max_retries (suc pages) token c).indexer
              sb.metadata.id
              sb.metadata.version
      found page rest e at = elim (Bool-cases (text_beq page.continuation_token [])) [
        | inl last ↦
            rw (resync_pages, e, last)
              (on_last page (
                subst
                  (λ b.
                    Listed sb
                      (page ∷ (if b then [] else listing pages page.continuation_token here.world)))
                  last at))
        | inr more ↦
            rw (resync_pages, e, more)
              (on_more page rest (
                subst
                  (λ b.
                    Listed sb
                      (page ∷ (if b then [] else listing pages page.continuation_token here.world)))
                  more at))
      ]

  -- After a resync, the index holds every sandbox with an id and an intent that the api-server listed
  -- on one of the first hundred pages, up to the first failed call or the last page, in the version
  -- that was listed or a later one.
  pub resync-Holds :
      (sb : Sandbox) (c : State)
      → Listed sb (listing resync_max_pages [] c.world)
      → sb.intent ≢ none
      → sb.metadata.id ≢ []
      → Holds (resync outside max_retries c).indexer sb.metadata.id sb.metadata.version
  unfolding resync
  resync-Holds sb c at wanted named = resync_pages-Holds sb resync_max_pages [] c at wanted named
