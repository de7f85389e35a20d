-- ===== src/Wallet.antt =====
-- easyclaw-frontend/src/app/lib/wallet.tsx: addresses (Address), the wallets that the page has
-- (Detection), and the state behind `useWallet` with its handlers (Context).
pub mod Objects
pub mod Address
pub mod Detection
pub mod Context
mod Tests
