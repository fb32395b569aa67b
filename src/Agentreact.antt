-- ===== src/Agentreact.antt =====
-- Package agentreact: the ReAct engine.
pub mod ToolValidation
pub mod Requirements
pub mod Turn
pub mod Loop
